-- ===== src/Bot/State/Tests.antt =====
-- The control plane, bot-state.service.ts, on concrete rows.
use nest_js_mega_backend.Prelude.{◌≡◌, refl, true, false, none, some, [], ◌∷◌, is_some}
use nest_js_mega_backend.Prelude.Int.{◌≤ℤ◌}
use nest_js_mega_backend.Bot.Lockout.{
  BotLane, BotMode, BotPhase, ComputePhaseParams, KillScope, compute_phase, dollars,
  min_equity_live, is_operator_unlockable,
}
use nest_js_mega_backend.Bot.State.{
  BotState, Env, ExitResult, BotOpenPosition, Control, initial_row, set_lane, take_lane,
  lane_allowed, enable_live, reset_paper, disable_live, kill, unlock, flatten_and_halt,
  clear_lockout_if_new_day, ok, thrown, conflict, unfilled, failed, filled, Exception, same_lane,
  ◌>>◌,
}
use nest_js_mega_backend.Bot.State.Invariant.{IsSound}
use nest_js_mega_backend.Bot.State.Halts.{flatten_and_halt_lem, kill_then_unlock}
use nest_js_mega_backend.Bot.State.Orphan.{IsOrphaned, disable_live_orphan}
use nest_js_mega_backend.Bot.State.Switches.{
  set_lane_live_guard, reset_paper_ledger, Reach, here, next, enables_live, sets_lane, halts,
  unlocks, Reach_control,
}

abbrev quiet : ExitResult → Env
quiet exit_result = record {
  today = "2025-01-17";
  trainer_holds_feed = false;
  live_equity = dollars 6000;
  exit_result = exit_result;
  commission_per_contract = 6500;
}

abbrev position : BotOpenPosition
position = record { symbol = "SPY"; quantity = 2; source = BotLane.bot_live }

abbrev live_row : BotState
live_row = record initial_row {
  mode = BotMode.bot;
  lane = some BotLane.bot_live;
  running = true;
  live_armed = true;
  open_position = some position;
}

-- Locked out for a loss on the live lane, flat.
abbrev lost_row : BotState
lost_row = record live_row {
  running = false;
  open_position = none;
  lockout = true;
  lockout_reason = some "MAX_LOSS_USD";
  lockout_date_key = some "2025-01-17";
}

abbrev at : BotState → Control
at row = record { row = row; events = []; capital = [] }

abbrev scanning_params : ComputePhaseParams
scanning_params = record {
  mode = BotMode.bot;
  lane = some BotLane.bot_paper;
  lockout = false;
  has_open_position = false;
  transient_phase = none;
  within_trade_window = true;
  in_cooldown = false;
}

scans : compute_phase scanning_params ≡ BotPhase.scanning
unfolding compute_phase
scans = refl

loss_stays : (unlock (quiet failed) (at lost_row)).0 ≡ thrown conflict
unfolding unlock is_operator_unlockable
loss_stays = refl

flatten_and_halt_lem_example :
    let (result, c') = flatten_and_halt (quiet failed) "SOCKET_LOSS" KillScope.live (at live_row) in
    (result ≡ ok tt)
    × (c'.row.lockout ≡ true)
    × (c'.row.lockout_reason ≡ some "SOCKET_LOSS")
    × (c'.row.lockout_date_key ≡ some "2025-01-17")
    × (c'.row.running ≡ false)
    × (c'.row.lane ≡ some BotLane.bot_live)
    × (c'.row.mode ≡ BotMode.bot)
    × (c'.row.live_armed ≡ true)
flatten_and_halt_lem_example =
    flatten_and_halt_lem (quiet failed) "SOCKET_LOSS" KillScope.live (at live_row)

kill_then_unlock_example :
    let (result, c') =
      (kill (quiet failed) KillScope.live >> unlock (quiet failed)) (at lost_row) in
    (result ≡ ok tt) × (c'.row.lockout ≡ false) × (c'.row.running ≡ true)
kill_then_unlock_example = kill_then_unlock (quiet failed) KillScope.live (at lost_row)

-- The bot is unlocked, and a kill whose exit would be filled follows.
abbrev orphan_run :
    let c' = (disable_live (quiet unfilled) (at live_row)).1 in
    Reach c'
      (flatten_and_halt
        (quiet (filled 150))
        "KILL_SWITCH"
        KillScope.all
        (unlock (quiet failed) c').1).1
orphan_run =
    next (next here (unlocks (quiet failed)))
      (halts (quiet (filled 150)) "KILL_SWITCH" KillScope.all)

disable_live_orphan_example :
    let c' = (disable_live (quiet unfilled) (at live_row)).1 in
    IsOrphaned position c'
    × IsOrphaned position
        (flatten_and_halt
          (quiet (filled 150))
          "KILL_SWITCH"
          KillScope.all
          (unlock (quiet failed) c').1).1
disable_live_orphan_example =
    disable_live_orphan (quiet unfilled) (at live_row)
      (flatten_and_halt (quiet (filled 150)) "KILL_SWITCH" KillScope.all
        (unlock (quiet failed) (disable_live (quiet unfilled) (at live_row)).1).1).1
      refl refl refl orphan_run (((tt, tt), tt))

abbrev armed_row : BotState
armed_row = record initial_row { mode = BotMode.bot; live_armed = true }

set_lane_live_guard_example :
    let env = quiet failed in
    let after = (clear_lockout_if_new_day env (at armed_row)).1.row in
    (true ≡ true)
    × (after.live_armed ≡ true)
    × (min_equity_live ≤ℤ env.live_equity)
    × ((set_lane env BotLane.bot_live true (at armed_row)).1.row.lane ≡ some BotLane.bot_live)
    × (is_some after.open_position ≡ true
        → is_some after.lane ≡ true
        → same_lane env after.lane BotLane.bot_live ≡ true)
unfolding set_lane lane_allowed take_lane clear_lockout_if_new_day
set_lane_live_guard_example = set_lane_live_guard (quiet failed) true (at armed_row) refl

reset_paper_ledger_example :
    let (result, c') = reset_paper (quiet failed) (some (dollars 8000)) (at initial_row) in
    (result ≡ ok tt
      → (min_equity_live ≤ℤ dollars 8000)
        × (c'.row.paper_equity ≡ dollars 8000)
        × (c'.row.paper_settled_cash ≡ dollars 8000)
        × (c'.row.paper_day_start_equity ≡ dollars 8000)
        × (c'.capital
            ≡ record { lane = none; balance_before = dollars 10_000; balance_after = dollars 8000 }
              ∷ []))
    × ((e : Exception) → result ≡ thrown e → c' ≡ at initial_row)
reset_paper_ledger_example = reset_paper_ledger (quiet failed) (dollars 8000) (at initial_row)

abbrev after_arming : Control
after_arming = (enable_live (quiet failed) true (at initial_row)).1

abbrev a_run : Reach (at initial_row) (set_lane (quiet failed) BotLane.bot_live true after_arming).1
a_run =
    next (next here (enables_live (quiet failed) true))
      (sets_lane (quiet failed) BotLane.bot_live true)

Reach_control_example : IsSound (set_lane (quiet failed) BotLane.bot_live true after_arming).1.row
Reach_control_example =
    Reach_control (at initial_row) (set_lane (quiet failed) BotLane.bot_live true after_arming).1
      refl a_run
