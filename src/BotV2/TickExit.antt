-- ===== src/BotV2/TickExit.antt =====
-- src/subapps/schwab/bot-v2/bot-v2-tick-exit.util.ts and bot-v2-scale.util.ts: one option tick of
-- the trainer. Times are numbers of milliseconds, and a count of contracts is a natural number.
pub mod Laws
pub mod Warrant
use nest_js_mega_backend.Prelude.{
  ℕ, ◌+◌, ◌*◌, ◌/◌, Bool, true, false, not, ◌&&◌, ◌||◌, Option, none, some, max, ltb, leb,
  if◌then◌else◌, or_else, is_some,
}
use nest_js_mega_backend.Prelude.Int.{ℤ, pos, sub_ℕ, leb_ℤ, ltb_ℤ}
use nest_js_mega_backend.Prelude.Double.{Double, lt, lit}
use nest_js_mega_backend.Bot.Exit.{
  BotDirection, RatchetStopResult, SoftExitCheckInput, SoftExitReason, StopPremiumSource,
  decide_soft_exit,
}
use nest_js_mega_backend.BotV2.ProfitLock.{ProfitLockInput, ratchet_profit_lock}

pub data ExitReason : Type 0 where
  soft : SoftExitReason → ExitReason
  time_stop : ExitReason

pub data TickExitDecision (N : Type 0) : Type 0 where
  hold : RatchetStopResult N → TickExitDecision N
  scale_out : (quantity : ℕ) → RatchetStopResult N → TickExitDecision N
  exit : ExitReason → (quantity : ℕ) → RatchetStopResult N → TickExitDecision N

-- The fields of `exit`: what the soft exit reads besides the bid and the stop.
pub record ExitLevelsInForce (N : Type 0) : Type 0 where
  pub direction : Option BotDirection
  pub spot : N
  pub target_premium : Option N
  pub stop_underlying : Option N
  pub target_underlying : Option N

pub record TickExitInput (N : Type 0) : Type 0 where
  pub lock : ProfitLockInput N
  pub levels : ExitLevelsInForce N
  pub use_scale_out : Bool
  pub scaled_out : Bool
  pub quantity : ℕ
  pub entry_premium : N
  pub use_time_stop : Option Bool
  pub opened_at : Option ℕ
  pub peak_at : Option ℕ
  pub now : Option ℕ
  pub time_stop_seconds : Option ℕ

abbrev pub time_stop_green_clocks : ℕ
time_stop_green_clocks = 2

abbrev pub time_stop_max_clocks : ℕ
time_stop_max_clocks = 3

unfoldable pub scale_out_quantity : ℕ → ℕ
scale_out_quantity quantity = if ltb quantity 2 then 0 else quantity / 2

-- `(input.timeStopSeconds ?? 180) * 1000`
abbrev pub limit_ms : Option ℕ → ℕ
limit_ms seconds = or_else seconds 180 * 1000

module _ {N : Type 0} ⦃d : Double N⦄ where
  abbrev pub breakeven_of : TickExitInput N → N
  breakeven_of input =
      d.add input.entry_premium
        (d.div input.lock.commission_round_trip (d.mul (lit 100) (lit (max 1 input.lock.quantity))))

  -- The bid has gained `TIME_STOP_GOING_MULT` on the entry.
  abbrev pub is_going : TickExitInput N → Bool
  is_going input = d.le (d.mul input.entry_premium (d.dec 102 2)) input.lock.option_bid

  -- `timeStopDue` once the trade is older than one clock.
  overdue : TickExitInput N → (opened_at now : ℕ) → Bool
  overdue input opened_at now =
      let limit = limit_ms input.time_stop_seconds in
      let held = sub_ℕ now opened_at in
      let since_high = sub_ℕ now (or_else input.peak_at opened_at) in
      if lt input.lock.option_bid (breakeven_of input)
      then true
      else if is_going input
      then false
      else if ltb_ℤ (pos (limit * time_stop_max_clocks)) held
      then true
      else ltb_ℤ (pos (limit * time_stop_green_clocks)) held && ltb_ℤ (pos limit) since_high

  due_at : TickExitInput N → Option ℕ → Option ℕ → Bool
  unfolding overdue
  due_at input none now = false
  due_at input (some opened_at) none = false
  due_at input (some opened_at) (some now) =
      if leb_ℤ (sub_ℕ now opened_at) (pos (limit_ms input.time_stop_seconds))
      then false
      else overdue input opened_at now

  pub time_stop_due : TickExitInput N → Bool
  unfolding due_at
  time_stop_due input =
      if not (or_else input.use_time_stop false)
      then false
      else due_at input input.opened_at input.now

  pub should_scale_out : (enabled scaled_out : Bool) (quantity : ℕ) (entry_premium bid : N) → Bool
  unfolding scale_out_quantity
  should_scale_out enabled scaled_out quantity entry_premium bid =
      if not enabled || scaled_out
      then false
      else if ltb (scale_out_quantity quantity) 1
      then false
      else if not (lt (lit 0) entry_premium) || not (lt (lit 0) bid)
      then false
      else d.le (d.mul entry_premium (d.dec 11 1)) bid

  abbrev pub check_of : TickExitInput N → RatchetStopResult N → SoftExitCheckInput N
  check_of input ratchet = record {
    direction = input.levels.direction;
    spot = input.levels.spot;
    option_bid = some input.lock.option_bid;
    stop_premium = ratchet.stop_premium;
    target_premium = input.levels.target_premium;
    stop_underlying = input.levels.stop_underlying;
    target_underlying = input.levels.target_underlying;
    stop_premium_source = some ratchet.source;
  }

  -- The end of `decideTickExit`: a partial sale, or none.
  scale_or_hold : TickExitInput N → RatchetStopResult N → TickExitDecision N
  unfolding should_scale_out scale_out_quantity
  scale_or_hold input ratchet =
      if should_scale_out input.use_scale_out input.scaled_out input.quantity input.entry_premium
        input.lock.option_bid
      then scale_out (scale_out_quantity input.quantity) ratchet
      else hold ratchet

  pub decide_tick_exit : TickExitInput N → TickExitDecision N
  unfolding scale_or_hold time_stop_due
  decide_tick_exit input =
      let ratchet = ratchet_profit_lock input.lock in
      if time_stop_due input
      then exit time_stop input.quantity ratchet
      else elim (decide_soft_exit (check_of input ratchet)) [
        | some full_exit ↦ exit (soft full_exit) input.quantity ratchet
        | none ↦ scale_or_hold input ratchet
      ]
