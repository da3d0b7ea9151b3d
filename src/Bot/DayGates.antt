-- ===== src/Bot/DayGates.antt =====
-- `checkLossAndProfitGates` of src/subapps/schwab/bot/bot-engine.service.ts: the limits of a day on the
-- live account. What the status says of the day is the `DayReading`; the row is the one of the
-- heartbeat. The halt is that of Bot.State.
pub mod Limits
pub mod Laws
mod Tests
use nest_js_mega_backend.Prelude.{
  ◌≡◌, refl, sym, ◌⊎◌, inl, inr, Bool, true, false, not, ◌&&◌, Option, none, some, String,
  if◌then◌else◌, if_holds, Option-cases, arith,
}
use nest_js_mega_backend.Prelude.Double.{Double, lit, lt}
use nest_js_mega_backend.Bot.Lockout.{BotLane, KillScope, is_live, is_operator_unlockable}
use nest_js_mega_backend.Bot.State.{
  Env, Control, Result, Action, Done, pure, flatten_and_halt, unlock, ok, thrown, conflict,
}
use nest_js_mega_backend.Bot.State.Halts.{flatten_and_halt_lem, unlock_lem}

pub record GateSettings (N : Type 0) : Type 0 where
  pub use_max_loss_usd : Bool
  pub max_loss_usd : Option N
  pub use_max_loss_pct : Bool
  pub max_loss_pct : Option N
  pub use_profit_usd : Bool
  pub profit_usd : Option N
  pub use_profit_pct_day_start : Bool
  pub profit_pct_day_start : Option N
  pub use_profit_pct_current : Bool
  pub profit_pct_current : Option N

pub record DayReading (N : Type 0) : Type 0 where
  pub today_bot_pnl : N
  pub day_start_equity : N
  pub equity : N

abbrev pub halt_for : Env → Option String → Action Done
halt_for env none = pure tt
halt_for env (some reason) = flatten_and_halt env reason KillScope.all

-- The reason of the first limit of the day that is reached.
abbrev pub first_reached :
    (loss_usd loss_pct profit_usd profit_day_start profit_current : Bool) → Option String
first_reached loss_usd loss_pct profit_usd profit_day_start profit_current =
    if loss_usd
    then some "MAX_LOSS_USD"
    else if loss_pct
    then some "MAX_LOSS_PCT"
    else if profit_usd
    then some "PROFIT_TARGET_USD"
    else if profit_day_start
    then some "PROFIT_TARGET_PCT_DAY_START"
    else if profit_current
    then some "PROFIT_TARGET_PCT_CURRENT"
    else none

module _ {N : Type 0} ⦃d : Double N⦄ where
  abbrev pub is_reached : (in_use : Bool) → Option N → (N → Bool) → Bool
  is_reached in_use none test = false
  is_reached in_use (some limit) test = in_use && test limit

  abbrev opposite : N → N
  opposite value = d.sub (lit 0) value

  -- The share of an equity, which must be above zero, that a percentage is.
  abbrev share : (equity pct : N) → N
  share equity pct = d.mul equity (d.div pct (lit 100))

  unfoldable pub day_gate : GateSettings N → DayReading N → Option String
  day_gate s r =
      first_reached
        (is_reached s.use_max_loss_usd s.max_loss_usd (λ usd. d.le r.today_bot_pnl (opposite usd)))
        (is_reached s.use_max_loss_pct s.max_loss_pct (λ pct.
          lt (lit 0) r.day_start_equity
          && d.le r.today_bot_pnl (opposite (share r.day_start_equity pct))))
        (is_reached s.use_profit_usd s.profit_usd (λ usd. d.le usd r.today_bot_pnl))
        (is_reached s.use_profit_pct_day_start s.profit_pct_day_start (λ pct.
          lt (lit 0) r.day_start_equity && d.le (share r.day_start_equity pct) r.today_bot_pnl))
        (is_reached s.use_profit_pct_current s.profit_pct_current
          (λ pct. lt (lit 0) r.equity && d.le (share r.equity pct) r.today_bot_pnl))

  unfoldable pub check_loss_and_profit_gates : Env → GateSettings N → DayReading N → Action Done
  unfolding day_gate
  check_loss_and_profit_gates env s r c =
      if is_live c.row.lane then halt_for env (day_gate s r) c else pure tt c
