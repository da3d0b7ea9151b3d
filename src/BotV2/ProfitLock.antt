-- ===== src/BotV2/ProfitLock.antt =====
-- src/subapps/schwab/bot-v2/bot-v2-profit-lock.util.ts: the trainer's exit ladder. Prices, dollars
-- and percentages are values of `Double`, and a count of contracts is a natural number.
pub mod Laws
use nest_js_mega_backend.Prelude.{
  ℕ, Bool, true, false, not, ◌&&◌, ◌||◌, Option, none, some, max, if◌then◌else◌, or_else,
}
use nest_js_mega_backend.Prelude.Double.{Double, lt, max_of, min_of, lit}
use nest_js_mega_backend.Bot.Exit.{
  RatchetStopResult, StopPremiumSource, up_pct, cent_under, raise_stop, is_raised,
}

pub record ProfitLockLadder (N : Type 0) : Type 0 where
  pub stop_pct : N
  pub arm_pct : N
  pub floor_pct : N
  pub giveback_pct : N
  pub tight_from_pct : N
  pub tight_giveback_pct : N

pub record ProfitLockInput (N : Type 0) : Type 0 where
  pub entry_premium : N
  pub option_bid : N
  pub peak_bid : Option N
  pub stop_premium : Option N
  pub quantity : ℕ
  pub commission_round_trip : N
  pub ladder : Option (ProfitLockLadder N)

module _ {N : Type 0} ⦃d : Double N⦄ where
  abbrev pub default_profit_lock : ProfitLockLadder N
  default_profit_lock = record {
    stop_pct = lit 12;
    arm_pct = lit 8;
    floor_pct = lit 2;
    giveback_pct = lit 6;
    tight_from_pct = lit 20;
    tight_giveback_pct = lit 4;
  }

  -- `Math.round(value * 100) / 100`
  unfoldable pub round2 : N → N
  round2 value = d.div (d.round (d.mul value (lit 100))) (lit 100)

  -- `-value`
  abbrev negate : N → N
  negate value = d.sub (lit 0) value

  unfoldable pub return_on_cost_pct :
      (bid entry_premium : N) (quantity : ℕ) (commission_round_trip : N) → N
  return_on_cost_pct bid entry_premium quantity commission_round_trip =
      let qty = lit (max quantity 1) in
      let cost = d.mul (d.mul entry_premium (lit 100)) qty in
      let unrealized =
        d.sub (d.mul (d.mul (d.sub bid entry_premium) (lit 100)) qty) commission_round_trip in
      if d.le cost (lit 0) then lit 0 else d.mul (d.div unrealized cost) (lit 100)

  unfoldable pub bid_for_return_pct :
      (return_pct entry_premium : N) (quantity : ℕ) (commission_round_trip : N) → N
  bid_for_return_pct return_pct entry_premium quantity commission_round_trip =
      d.add (d.mul entry_premium (up_pct return_pct))
        (d.div commission_round_trip (d.mul (lit 100) (lit (max quantity 1))))

  unfoldable pub locked_return_for : (peak_return_pct : N) → ProfitLockLadder N → Option N
  locked_return_for peak_return_pct ladder =
      let giveback =
        if d.le ladder.tight_from_pct peak_return_pct
        then ladder.tight_giveback_pct
        else ladder.giveback_pct in
      if lt peak_return_pct ladder.arm_pct
      then none
      else some (max_of ladder.floor_pct (d.sub peak_return_pct giveback))

  unfoldable pub disaster_stop_bid :
      (entry_premium : N) (quantity : ℕ) (commission_round_trip : N) → ProfitLockLadder N → N
  disaster_stop_bid entry_premium quantity commission_round_trip ladder =
      round2
        (bid_for_return_pct (negate ladder.stop_pct) entry_premium quantity commission_round_trip)

  abbrev pub ladder_of : ProfitLockInput N → ProfitLockLadder N
  ladder_of input = or_else input.ladder default_profit_lock

  abbrev pub lock_peak : ProfitLockInput N → N
  lock_peak input = max_of (or_else input.peak_bid input.entry_premium) input.option_bid

  abbrev pub floor_of : ProfitLockInput N → N
  floor_of input =
      disaster_stop_bid input.entry_premium input.quantity input.commission_round_trip
        (ladder_of input)

  abbrev pub peak_return : ProfitLockInput N → N
  peak_return input =
      return_on_cost_pct (lock_peak input) input.entry_premium input.quantity
        input.commission_round_trip

  -- `input.stopPremium == null ? floor : Math.max(input.stopPremium, floor)`
  unfoldable floor_result : ProfitLockInput N → RatchetStopResult N
  floor_result input =
      let stop = raise_stop input.stop_premium (floor_of input) in
      record {
        peak_bid = lock_peak input;
        trail_armed = false;
        stop_premium = some stop;
        source = StopPremiumSource.initial;
        raised = is_raised input.stop_premium stop;
      }

  abbrev pub capped_for : ProfitLockInput N → N → N
  capped_for input locked =
      let desired =
        bid_for_return_pct locked input.entry_premium input.quantity input.commission_round_trip in
      round2 (min_of desired (cent_under (lock_peak input)))

  unfoldable locked_result : ProfitLockInput N → N → RatchetStopResult N
  locked_result input locked =
      let stop =
        max_of (raise_stop input.stop_premium (floor_of input)) (capped_for input locked) in
      record {
        peak_bid = lock_peak input;
        trail_armed = true;
        stop_premium = some stop;
        source = StopPremiumSource.trail;
        raised = is_raised input.stop_premium stop;
      }

  unfoldable pub ratchet_profit_lock : ProfitLockInput N → RatchetStopResult N
  unfolding floor_result locked_result
  ratchet_profit_lock input = elim (locked_return_for (peak_return input) (ladder_of input)) [
    | none ↦ floor_result input
    | some locked ↦ locked_result input locked
  ]

-- The sell rule of a settings row: each column may be missing.
pub record ProfitLockRow (N : Type 0) : Type 0 where
  pub loss_cut_pct : Option N
  pub protect_arm_pct : Option N
  pub protect_floor_pct : Option N
  pub giveback_pct : Option N
  pub tight_from_pct : Option N
  pub tight_giveback_pct : Option N

module _ {N : Type 0} ⦃d : Double N⦄ where
  finite_or : Option N → N → N
  finite_or none fallback = fallback
  finite_or (some value) fallback = if not (d.is_finite value) then fallback else value

  pub profit_lock_from_settings : ProfitLockRow N → ProfitLockLadder N
  unfolding finite_or
  profit_lock_from_settings row = record {
    stop_pct = finite_or row.loss_cut_pct (lit 12);
    arm_pct = finite_or row.protect_arm_pct (lit 8);
    floor_pct = finite_or row.protect_floor_pct (lit 2);
    giveback_pct = finite_or row.giveback_pct (lit 6);
    tight_from_pct = finite_or row.tight_from_pct (lit 20);
    tight_giveback_pct = finite_or row.tight_giveback_pct (lit 4);
  }
