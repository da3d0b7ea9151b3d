-- ===== src/Bot/State/Switches.antt =====
-- Changing the lane and the mode, resetting the paper ledger, and the runs of the control plane.
use nest_js_mega_backend.Prelude.{
  ◌≡◌, Bool, true, not, ◌&&◌, Option, some, ◌∷◌, String, arith, is_some, if◌then◌else◌,
}
use nest_js_mega_backend.Prelude.Int.{ℤ, ◌≤ℤ◌}
use nest_js_mega_backend.Bot.Lockout.{BotLane, BotMode, KillScope, is_bot, min_equity_live}
use nest_js_mega_backend.Bot.State.{
  Env, Control, initial_row, clear_lockout_if_new_day, release_feed_for_trainer, set_mode, set_lane,
  take_lane, lane_allowed, enable_live, reset_paper, reset_with, disable_live, unlock,
  flatten_and_halt, ok, thrown, conflict, Exception, same_lane, mode_running, bad_reset,
}
use nest_js_mega_backend.Bot.State.Invariant.{
  IsSound, initial_row-IsSound, clear_lockout-IsSound, release_feed-IsSound, set_mode-IsSound,
  set_lane-IsSound, enable_live-IsSound, reset_paper-IsSound, disable_live-IsSound,
  flatten_and_halt-IsSound, unlock-IsSound, lane_allowed_lem,
}

live_allowed :
    (env : Env) (c : Control)
    → (lane_allowed env BotLane.bot_live c).0 ≡ ok tt
    → (c.row.live_armed ≡ true) × (min_equity_live ≤ℤ env.live_equity)
unfolding lane_allowed
live_allowed env c h = ground arith

take_lane_sets :
    (env : Env) (lane : BotLane) (c : Control)
    → (take_lane env lane c).0 ≡ ok tt
    → ((take_lane env lane c).1.row.lane ≡ some lane)
      × (is_some c.row.open_position ≡ true
          → is_some c.row.lane ≡ true
          → same_lane env c.row.lane lane ≡ true)
unfolding take_lane
take_lane_sets env lane c h = ground arith

-- The live lane is taken only by a confirmed call, while live is armed and the live account holds
-- the minimum; a bot with an open position stays on its lane.
pub set_lane_live_guard :
    (env : Env) (confirm : Bool) (c : Control)
    → (set_lane env BotLane.bot_live confirm c).0 ≡ ok tt
    → let after = (clear_lockout_if_new_day env c).1.row in
      (confirm ≡ true)
      × (after.live_armed ≡ true)
      × (min_equity_live ≤ℤ env.live_equity)
      × ((set_lane env BotLane.bot_live confirm c).1.row.lane ≡ some BotLane.bot_live)
      × (is_some after.open_position ≡ true
          → is_some after.lane ≡ true
          → same_lane env after.lane BotLane.bot_live ≡ true)
unfolding set_lane
set_lane_live_guard env confirm c h =
    let c' = (clear_lockout_if_new_day env c).1 in
    ground (
      arith,
      lane_allowed_lem env BotLane.bot_live c',
      live_allowed env c',
      take_lane_sets env BotLane.bot_live c',
    )

-- A bot in BOT mode is running right after the call exactly when it has a lane and is not locked out;
-- while the house trainer holds the feed the call throws and changes nothing.
pub set_mode_lem :
    (env : Env) (mode : BotMode) (c : Control)
    → let (result, c') = set_mode env mode c in
      let after = (clear_lockout_if_new_day env c).1.row in
      if is_bot mode && env.trainer_holds_feed
      then (result ≡ thrown conflict) × (c' ≡ c)
      else (c'.row.mode ≡ mode)
        × (c'.row.running ≡ (is_bot mode && is_some after.lane && not after.lockout))
        × (c'.row.lane ≡ after.lane)
unfolding set_mode mode_running clear_lockout_if_new_day
set_mode_lem env BotMode.manual c = ground arith
set_mode_lem env BotMode.bot c = ground arith

-- A reset that goes through sets the whole paper ledger to the amount, which is the live minimum at
-- least, and enters the old and the new balance in the ledger of capital; a reset that throws changes
-- nothing.
pub reset_paper_ledger :
    (env : Env) (equity : ℤ) (c : Control)
    → let (result, c') = reset_paper env (some equity) c in
      (result ≡ ok tt
        → (min_equity_live ≤ℤ equity)
          × (c'.row.paper_equity ≡ equity)
          × (c'.row.paper_settled_cash ≡ equity)
          × (c'.row.paper_day_start_equity ≡ equity)
          × (c'.capital
              ≡ record {
                lane = c.row.lane;
                balance_before = c.row.paper_equity;
                balance_after = equity;
              }
                ∷ c.capital))
      × ((e : Exception) → result ≡ thrown e → c' ≡ c)
unfolding reset_paper reset_with bad_reset
reset_paper_ledger env equity c = ground arith

-- What the desk, the engine and the trainer can do to a row, each call in its own environment.
pub data Step : Control → Control → Type 0 where
  rolls_over : {c : Control} (env : Env) → Step c (clear_lockout_if_new_day env c).1
  yields_feed : {c : Control} (env : Env) → Step c (release_feed_for_trainer env c).1
  sets_mode : {c : Control} (env : Env) (mode : BotMode) → Step c (set_mode env mode c).1
  sets_lane :
      {c : Control} (env : Env) (lane : BotLane) (confirm : Bool)
      → Step c (set_lane env lane confirm c).1
  enables_live : {c : Control} (env : Env) (confirm : Bool) → Step c (enable_live env confirm c).1
  disables_live : {c : Control} (env : Env) → Step c (disable_live env c).1
  resets_paper : {c : Control} (env : Env) (equity : Option ℤ) → Step c (reset_paper env equity c).1
  halts :
      {c : Control} (env : Env) (reason : String) (scope : KillScope)
      → Step c (flatten_and_halt env reason scope c).1
  unlocks : {c : Control} (env : Env) → Step c (unlock env c).1

pub data Reach (c : Control) : Control → Type 0 where
  here : Reach c c
  next : {d e : Control} → Reach c d → Step d e → Reach c e

Step-IsSound : {c d : Control} → Step c d → IsSound c.row → IsSound d.row
Step-IsSound (rolls_over {c} env) v = clear_lockout-IsSound env c v
Step-IsSound (yields_feed {c} env) v = release_feed-IsSound env c v
Step-IsSound (sets_mode {c} env mode) v = set_mode-IsSound env mode c v
Step-IsSound (sets_lane {c} env lane confirm) v = set_lane-IsSound env lane confirm c v
Step-IsSound (enables_live {c} env confirm) v = enable_live-IsSound env confirm c v
Step-IsSound (disables_live {c} env) v = disable_live-IsSound env c v
Step-IsSound (resets_paper {c} env equity) v = reset_paper-IsSound env equity c v
Step-IsSound (halts {c} env reason scope) v = flatten_and_halt-IsSound env reason scope c v
Step-IsSound (unlocks {c} env) v = unlock-IsSound env c v

Reach-IsSound : {c d : Control} → Reach c d → IsSound c.row → IsSound d.row
Reach-IsSound here v = v
Reach-IsSound (next r s) v = Step-IsSound s (Reach-IsSound r v)

-- In every run of the control plane from a new user's row, whatever throws on the way, the bot runs
-- only in BOT mode on a lane without a lockout, it is on the live lane only while live is armed, and
-- a lockout has a reason and a day.
pub Reach_control : (start c : Control) → start.row ≡ initial_row → Reach start c → IsSound c.row
Reach_control start c e r = Reach-IsSound r (rw e initial_row-IsSound)
