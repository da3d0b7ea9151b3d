-- ===== src/Bot/Exit.antt =====
-- src/subapps/schwab/bot/bot-exit.util.ts: the exit levels of an open position, the ratchet of the
-- premium stop and the soft exit. Prices and percentages are values of `Double`.
pub mod Ratchet
pub mod SoftExit
mod Tests
use nest_js_mega_backend.Prelude.{
  ℕ, Bool, true, false, not, ◌&&◌, ◌||◌, Option, none, some, ltb, if◌then◌else◌, or_else,
}
use nest_js_mega_backend.Prelude.Double.{Double, lt, max_of, min_of, lit}

pub data BotDirection : Type 0 where
  call put : BotDirection

pub data SoftExitReason : Type 0 where
  premium_stop premium_target trail_stop underlying_stop underlying_target : SoftExitReason

pub data StopPremiumSource : Type 0 where
  initial trail : StopPremiumSource

pub record ExitLevelInputs (N : Type 0) : Type 0 where
  pub entry_premium : N
  pub spot : N
  pub atr : Option N
  pub direction : BotDirection
  pub use_premium_stop : Bool
  pub premium_stop_pct : N
  pub use_premium_target : Bool
  pub premium_target_pct : N
  pub stop_atr_mult : N
  pub target_atr_mult : N
  pub atr_floor : Option N

pub record ExitLevels (N : Type 0) : Type 0 where
  pub stop_premium : Option N
  pub target_premium : Option N
  pub stop_underlying : Option N
  pub target_underlying : Option N
  pub atr_used : N

pub record RatchetStopInput (N : Type 0) : Type 0 where
  pub entry_premium : N
  pub option_bid : N
  pub peak_bid : Option N
  pub stop_premium : Option N
  pub trail_armed : Bool
  pub trail_arm_pct : N
  pub trail_pct : N
  pub breakeven_bid : N
  pub min_lock_bid : N

pub record RatchetStopResult (N : Type 0) : Type 0 where
  pub peak_bid : N
  pub trail_armed : Bool
  pub stop_premium : Option N
  pub source : StopPremiumSource
  pub raised : Bool

pub record SoftExitCheckInput (N : Type 0) : Type 0 where
  pub direction : Option BotDirection
  pub spot : N
  pub option_bid : Option N
  pub stop_premium : Option N
  pub target_premium : Option N
  pub stop_underlying : Option N
  pub target_underlying : Option N
  pub stop_premium_source : Option StopPremiumSource

pub premium_reason : Option StopPremiumSource → SoftExitReason
premium_reason (some StopPremiumSource.trail) = SoftExitReason.trail_stop
premium_reason _ = SoftExitReason.premium_stop

module _ {N : Type 0} ⦃d : Double N⦄ where
  -- `1 + pct / 100` and `1 - pct / 100`
  abbrev pub up_pct : N → N
  up_pct pct = d.add (lit 1) (d.div pct (lit 100))

  abbrev pub down_pct : N → N
  down_pct pct = d.sub (lit 1) (d.div pct (lit 100))

  usable_atr : Option N → N → N
  usable_atr none atr_floor = atr_floor
  usable_atr (some atr) atr_floor = if d.is_finite atr && lt (lit 0) atr then atr else atr_floor

  abbrev below_spot : N → N → N → N
  below_spot spot atr mult = d.sub spot (d.mul atr mult)

  abbrev above_spot : N → N → N → N
  above_spot spot atr mult = d.add spot (d.mul atr mult)

  pub stop_underlying_of : BotDirection → (spot atr mult : N) → N
  stop_underlying_of BotDirection.call spot atr mult = below_spot spot atr mult
  stop_underlying_of BotDirection.put spot atr mult = above_spot spot atr mult

  pub target_underlying_of : BotDirection → (spot atr mult : N) → N
  target_underlying_of BotDirection.call spot atr mult = above_spot spot atr mult
  target_underlying_of BotDirection.put spot atr mult = below_spot spot atr mult

  pub compute_exit_levels : ExitLevelInputs N → ExitLevels N
  unfolding usable_atr stop_underlying_of target_underlying_of
  compute_exit_levels input =
      let atr_used = usable_atr input.atr (or_else input.atr_floor (d.dec 5 1)) in
      record {
        stop_premium =
            if input.use_premium_stop
            then some (d.mul input.entry_premium (down_pct input.premium_stop_pct))
            else none;
        target_premium =
            if input.use_premium_target
            then some (d.mul input.entry_premium (up_pct input.premium_target_pct))
            else none;
        stop_underlying =
            some (stop_underlying_of input.direction input.spot atr_used input.stop_atr_mult);
        target_underlying =
            some (target_underlying_of input.direction input.spot atr_used input.target_atr_mult);
        atr_used = atr_used;
      }

  -- The highest bid of the trade, this tick included.
  abbrev pub peak_of : RatchetStopInput N → N
  peak_of input = max_of (or_else input.peak_bid input.entry_premium) input.option_bid

  abbrev pub arms : RatchetStopInput N → Bool
  arms input =
      input.trail_armed
      || d.le (d.mul input.entry_premium (up_pct input.trail_arm_pct)) input.option_bid

  -- `Math.max` of the three floors
  abbrev pub desired_of : RatchetStopInput N → N
  desired_of input =
      max_of (max_of (d.mul (peak_of input) (down_pct input.trail_pct)) input.breakeven_bid)
        input.min_lock_bid

  abbrev pub cent_under : N → N
  cent_under peak = d.sub peak (d.dec 1 2)

  -- `stopPremium == null ? level : Math.max(stopPremium, level)`
  abbrev pub raise_stop : Option N → N → N
  raise_stop none level = level
  raise_stop (some stop) level = max_of stop level

  -- `input.stopPremium == null || stopPremium > input.stopPremium`
  abbrev pub is_raised : Option N → N → Bool
  is_raised none level = true
  is_raised (some stop) level = lt stop level

  pub ratchet_premium_stop : RatchetStopInput N → RatchetStopResult N
  ratchet_premium_stop input =
      let peak = peak_of input in
      let capped = min_of (desired_of input) (cent_under peak) in
      let stop = raise_stop input.stop_premium capped in
      if not (arms input)
      then record {
        peak_bid = peak;
        trail_armed = false;
        stop_premium = input.stop_premium;
        source = StopPremiumSource.initial;
        raised = false;
      }
      else record {
        peak_bid = peak;
        trail_armed = true;
        stop_premium = some stop;
        source = StopPremiumSource.trail;
        raised = is_raised input.stop_premium stop;
      }

  pub breakeven_bid_for : (entry_premium commission_per_contract_round_trip : N) → N
  breakeven_bid_for entry_premium commission = d.add entry_premium (d.div commission (lit 100))

  pub min_lock_bid_for : (entry_premium trail_min_lock_pct : N) → N
  min_lock_bid_for entry_premium pct =
      if d.le pct (lit 0) then entry_premium else d.mul entry_premium (up_pct pct)

  -- `a != null && b != null && a <= b`, and the same with `>=`
  abbrev pub at_or_below : Option N → Option N → Bool
  at_or_below (some a) (some b) = d.le a b
  at_or_below _ _ = false

  abbrev pub at_or_above : Option N → Option N → Bool
  at_or_above (some a) (some b) = d.le b a
  at_or_above _ _ = false

  -- The underlying is through a level against, or with, the direction of the trade.
  pub underlying_stopped : BotDirection → N → Option N → Bool
  underlying_stopped BotDirection.call spot level = at_or_below (some spot) level
  underlying_stopped BotDirection.put spot level = at_or_above (some spot) level

  pub underlying_reached : BotDirection → N → Option N → Bool
  underlying_reached BotDirection.call spot level = at_or_above (some spot) level
  underlying_reached BotDirection.put spot level = at_or_below (some spot) level

  unfoldable pub decide_for : BotDirection → SoftExitCheckInput N → Option SoftExitReason
  unfolding premium_reason underlying_stopped underlying_reached
  decide_for direction input =
      if at_or_below input.option_bid input.stop_premium
      then some (premium_reason input.stop_premium_source)
      else if underlying_stopped direction input.spot input.stop_underlying
      then some SoftExitReason.underlying_stop
      else if at_or_above input.option_bid input.target_premium
      then some SoftExitReason.premium_target
      else if underlying_reached direction input.spot input.target_underlying
      then some SoftExitReason.underlying_target
      else none

  -- A direction that is neither a call nor a put leaves the trade alone.
  unfoldable pub decide_soft_exit : SoftExitCheckInput N → Option SoftExitReason
  unfolding decide_for
  decide_soft_exit input = elim input.direction [
    | none ↦ none
    | some direction ↦ decide_for direction input
  ]

pub should_force_flatten_for_socket_loss :
    (has_open_position : Bool) (disconnected_for_ms : Option ℕ) (grace_ms : ℕ) → Bool
should_force_flatten_for_socket_loss false _ grace_ms = false
should_force_flatten_for_socket_loss true none grace_ms = true
should_force_flatten_for_socket_loss true (some ms) grace_ms = ltb grace_ms ms
