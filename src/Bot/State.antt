-- ===== src/Bot/State.antt =====
-- `BotStateService` of src/subapps/schwab/bot/bot-state.service.ts, with `flattenAndHalt` and the
-- effect of `closeOpenPosition` on the row, of bot-engine.service.ts: the control plane of one
-- user's bot. The row is the one that `getRow` returns and `save` writes.
-- `Env` holds what one call reads from outside: the ET calendar day, whether the house trainer holds
-- the feed, the equity of the live account, and how the broker answers an exit order.
mod Monad
pub mod Invariant
pub mod Halts
pub mod Switches
pub mod Orphan
mod Tests
pub use Monad.*
use nest_js_mega_backend.Prelude.{
  ℕ, ◌+◌, ◌*◌, ◌/◌, Bool, true, false, not, ◌&&◌, ◌||◌, Option, none, some, List, [], ◌∷◌, String,
  ◌===◌, if◌then◌else◌, is_some,
}
use nest_js_mega_backend.Prelude.Int.{ℤ, pos, ◌+ℤ◌, ◌-ℤ◌, ltb_ℤ}
use nest_js_mega_backend.Bot.Lockout.{
  BotLane, BotMode, KillScope, is_live, is_paper, is_bot, min_equity_live, min_equity_paper,
  default_paper_equity, is_paper_training_lockout, is_operator_unlockable,
}

-- The row that `getRow` creates for a new user.
abbrev pub initial_row : BotState
initial_row = record {
  mode = BotMode.manual;
  lane = none;
  running = false;
  lockout = false;
  lockout_reason = none;
  lockout_date_key = none;
  live_armed = false;
  paper_equity = default_paper_equity;
  paper_settled_cash = default_paper_equity;
  paper_day_start_equity = default_paper_equity;
  open_position = none;
}

abbrev pub unlocked : BotState → BotState
unlocked row = record row { lockout = false; lockout_reason = none; lockout_date_key = none }

-- `if (row.mode === BotMode.BOT && row.lane) row.running = true`
abbrev pub resumed : BotState → BotState
resumed row = if is_bot row.mode && is_some row.lane then record row { running = true } else row

same_text : Option String → String → Bool
same_text none b = false
same_text (some a) b = a === b

-- `commissionForLeg`: a hundred units of money are a cent, and half a cent goes up.
pub leg_commission : (quantity commission_per_contract : ℕ) → ℕ
leg_commission quantity commission_per_contract =
    (quantity * commission_per_contract + 50) / 100 * 100

assert_min_equity : (equity floor : ℤ) → Action Done
assert_min_equity equity floor = throw_if (ltb_ℤ equity floor) bad_request

module _ (env : Env) where
  abbrev rolled_over : BotState → BotState
  rolled_over row =
      let open_row = unlocked row in
      if is_paper row.lane
      then record open_row { paper_day_start_equity = row.paper_equity }
      else open_row

  pub clear_lockout_if_new_day : Action Bool
  unfolding same_text
  clear_lockout_if_new_day = do
    row ← get_row
    if not row.lockout || same_text row.lockout_date_key env.today then pure false else do
      save (rolled_over row)
      record_event row.lane unlock_event new_trading_day
      pure true

  pub release_feed_for_trainer : Action Done
  release_feed_for_trainer = do
    row ← get_row
    if not (is_bot row.mode) then pure tt else do
      throw_if (is_some row.open_position) conflict
      save (record row { mode = BotMode.manual; running = false })
      record_event row.lane operator_mode (mode_change row.mode BotMode.manual)

  pub mode_running : BotMode → BotState → Bool
  mode_running BotMode.manual row = false
  mode_running BotMode.bot row = is_some row.lane && not row.lockout

  pub set_mode : BotMode → Action Done
  unfolding mode_running
  set_mode mode = do
    throw_if (is_bot mode && env.trainer_holds_feed) conflict
    clear_lockout_if_new_day
    row ← get_row
    save (record row { mode = mode; running = mode_running mode row })
    record_event row.lane operator_mode (mode_change row.mode mode)

  -- `lane === BotLane.BOT_LIVE` demands the arming and the equity of the live account.
  pub lane_allowed : BotLane → Action Done
  unfolding assert_min_equity
  lane_allowed BotLane.bot_live = do
    row ← get_row
    throw_if (not row.live_armed) bad_request
    assert_min_equity env.live_equity min_equity_live
  lane_allowed BotLane.bot_paper = do
    row ← get_row
    assert_min_equity row.paper_equity min_equity_paper

  pub same_lane : Option BotLane → BotLane → Bool
  same_lane lane BotLane.bot_live = is_live lane
  same_lane lane BotLane.bot_paper = is_paper lane

  -- The end of `setLane`, once the lane is allowed.
  pub take_lane : BotLane → Action Done
  unfolding same_lane
  take_lane lane = do
    row ← get_row
    throw_if (is_some row.open_position && is_some row.lane && not (same_lane row.lane lane))
        conflict
    save (record row {
      lane = some lane;
      running = (is_bot row.mode && not row.lockout) || row.running;
    })
    record_event (some lane) operator_lane (lane_change row.lane lane)

  pub set_lane : BotLane → (confirm_live : Bool) → Action Done
  set_lane lane confirm_live = do
    clear_lockout_if_new_day
    throw_if (is_live (some lane) && not confirm_live) bad_request
    lane_allowed lane
    take_lane lane

  pub enable_live : (confirm : Bool) → Action Done
  unfolding assert_min_equity
  enable_live confirm = do
    throw_if (not confirm) bad_request
    assert_min_equity env.live_equity min_equity_live
    row ← get_row
    save (record row { live_armed = true })
    record_event row.lane operator_live live_armed_event

  holds_paper : Option BotOpenPosition → Bool
  holds_paper none = false
  holds_paper (some position) = is_paper (some position.source)

  -- `none` is an equity that is not finite.
  pub bad_reset : Option ℤ → Bool
  bad_reset none = true
  bad_reset (some equity) = ltb_ℤ equity min_equity_live

  abbrev reset_to : ℤ → BotState → BotState
  reset_to equity row = record row {
    paper_equity = equity;
    paper_settled_cash = equity;
    paper_day_start_equity = equity;
  }

  abbrev pub clears_training : BotState → Bool
  clears_training row = not (is_live row.lane) && is_paper_training_lockout row.lockout_reason

  pub reset_with : ℤ → Action Done
  unfolding holds_paper
  reset_with equity = do
    row ← get_row
    throw_if (holds_paper row.open_position) conflict
    let reset = reset_to equity row
    save (if clears_training row then resumed (unlocked reset) else reset)
    record_event row.lane operator_settings paper_reset
    record_capital row.lane row.paper_equity equity
    if clears_training row then record_event row.lane unlock_event operator_unlock else pure tt

  pub reset_paper : Option ℤ → Action Done
  reset_paper none = throw bad_request
  reset_paper (some equity) = do throw_if (bad_reset (some equity)) bad_request; reset_with equity

  -- The fill of a paper exit credits the ledger, less the commission of one leg.
  abbrev credited : BotState → BotOpenPosition → (fill_price : ℕ) → BotState
  credited row position fill_price =
      let cash =
        row.paper_settled_cash
        +ℤ pos (fill_price * position.quantity * 100)
        -ℤ pos (leg_commission position.quantity env.commission_per_contract) in
      if is_paper row.lane
      then record row { paper_settled_cash = cash; paper_equity = cash }
      else row

  -- An exit that throws is caught by the caller, and one that is not filled keeps the position.
  pub close_open_position : String → Action Done
  close_open_position reason = do
    row ← get_row
    elim row.open_position [
      | none ↦ pure tt
      | some position ↦ if not (is_some row.lane) then pure tt else do
        record_event row.lane exit_submit (halted reason)
        elim env.exit_result [
          | failed ↦ pure tt
          | unfilled ↦ record_event row.lane exit_submit exit_unfilled
          | filled fill_price ↦ do
            save (record (credited row position fill_price) { open_position = none })
            record_event row.lane exit_fill (halted reason)
        ]
    ]

  affects_lane : KillScope → Option BotLane → Bool
  affects_lane KillScope.all lane = true
  affects_lane KillScope.paper lane = is_paper lane
  affects_lane KillScope.live lane = is_live lane

  pub flatten_and_halt : String → KillScope → Action Done
  unfolding affects_lane
  flatten_and_halt reason scope = do
    row ← get_row
    if affects_lane scope row.lane && is_some row.open_position
        then close_open_position reason
        else pure tt
    refreshed ← get_row
    save (record refreshed {
      lockout = true;
      lockout_reason = some reason;
      lockout_date_key = some env.today;
      running = false;
    })
    record_event refreshed.lane (if reason === "KILL_SWITCH" then flat_kill else lockout_event)
        (halted reason)

  abbrev disarmed : BotState → BotState
  disarmed row =
      if is_live row.lane
      then record row { live_armed = false; lane = none; running = false }
      else record row { live_armed = false }

  pub disable_live : Action Done
  disable_live = do
    row ← get_row
    if is_live row.lane then flatten_and_halt "LIVE_DISABLED" KillScope.live else pure tt
    refreshed ← get_row
    save (disarmed refreshed)
    record_event (disarmed refreshed).lane operator_live live_disarmed

  pub kill : KillScope → Action Done
  kill scope = flatten_and_halt "KILL_SWITCH" scope

  pub unlock : Action Done
  unlock = do
    row ← get_row
    if not row.lockout then pure tt else do
      throw_if (not (is_operator_unlockable row.lane row.lockout_reason)) conflict
      save (resumed (unlocked row))
      record_event row.lane unlock_event operator_unlock
