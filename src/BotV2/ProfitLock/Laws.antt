-- ===== src/BotV2/ProfitLock/Laws.antt =====
-- The stop, the peak and the arming of `ratchetProfitLock`.
use nest_js_mega_backend.Prelude.{
  ◌≡◌, refl, false, Option, none, some, inl, inr, Option-cases, Bool-cases, or_else, if◌then◌else◌,
}
use nest_js_mega_backend.Prelude.Double.{Double, IsOrdered, IsUnder, ◌≼◌, max_of}
use nest_js_mega_backend.Prelude.Order.{le-max_left, le-max_right, max-le, min-le_right}
use nest_js_mega_backend.Bot.Exit.{cent_under, raise_stop}
use nest_js_mega_backend.Bot.Exit.Ratchet.{
  raise_stop-IsUnder, le-raise_stop, raise_stop-le, peak_over,
}
use nest_js_mega_backend.BotV2.ProfitLock.{
  ProfitLockInput, ProfitLockLadder, round2, locked_return_for, lock_peak, floor_of, peak_return,
  ladder_of, capped_for, floor_result, locked_result, ratchet_profit_lock,
}

module _ {N : Type 0} ⦃d : Double N⦄ (laws : IsOrdered N) where
  open laws use {le_refl, le_trans, le_total}

  -- The first is under the maximum with anything, if it is under one of the two.
  IsUnder-max : (a : Option N) (b c : N) → IsUnder a (some b) → IsUnder a (some (max_of b c))
  IsUnder-max none b c h = tt
  IsUnder-max (some a) b c h = le_trans a b _ h (le-max_left laws b c)

  -- A tick leaves a stop that is at least the old one and at least the disaster stop, and a peak
  -- that is at least the old one and at least the bid.
  pub ratchet_profit_lock_monotone :
      (input : ProfitLockInput N)
      → let r = ratchet_profit_lock input in
        (stop : N) × (r.stop_premium ≡ some stop)
        × IsUnder input.stop_premium (some stop)
        × (floor_of input ≼ stop)
        × IsUnder input.peak_bid (some r.peak_bid)
        × (input.option_bid ≼ r.peak_bid)
  unfolding ratchet_profit_lock floor_result locked_result
  ratchet_profit_lock_monotone input =
      let peak = peak_over laws input.peak_bid input.entry_premium input.option_bid in
      let bid = le-max_right laws (or_else input.peak_bid input.entry_premium) input.option_bid in
      let base = raise_stop input.stop_premium (floor_of input) in
      let kept = raise_stop-IsUnder laws input.stop_premium (floor_of input) in
      let floored = le-raise_stop laws input.stop_premium (floor_of input) in
      elim (Option-cases (locked_return_for (peak_return input) (ladder_of input))) [
        | inl idle ↦ rw (idle, ratchet_profit_lock) (base, refl, kept, floored, peak, bid)
        | inr (locked, e) ↦
            rw (e, ratchet_profit_lock)
              (
                max_of base (capped_for input locked),
                refl,
                IsUnder-max input.stop_premium base _ kept,
                le_trans _ _ _ floored (le-max_left laws base (capped_for input locked)),
                peak,
                bid,
              )
      ]

  locked_below :
      (peak : N) (ladder : ProfitLockLadder N)
      → d.le ladder.arm_pct peak ≡ false
      → locked_return_for peak ladder ≡ none
  unfolding locked_return_for
  locked_below peak ladder h = rw h

  abbrev locked_at : N → ProfitLockLadder N → N
  locked_at peak ladder = max_of ladder.floor_pct (
      d.sub peak (
        if d.le ladder.tight_from_pct peak then ladder.tight_giveback_pct else ladder.giveback_pct))

  locked_above :
      (peak : N) (ladder : ProfitLockLadder N)
      → ladder.arm_pct ≼ peak
      → locked_return_for peak ladder ≡ some (locked_at peak ladder)
  unfolding locked_return_for
  locked_above peak ladder h = rw h

  -- The trail is armed exactly when the peak return has reached the arm, and then the stop is at
  -- least the locked level, rounded to the cent and kept a cent under the peak.
  pub ratchet_profit_lock_arms :
      (input : ProfitLockInput N)
      → let r = ratchet_profit_lock input in
        let arm = (ladder_of input).arm_pct in
        (r.trail_armed ≡ d.le arm (peak_return input))
        × (arm ≼ peak_return input
            → (locked : N) × (stop : N) × (locked_return_for (peak_return input) (ladder_of input)
                ≡ some locked)
              × ((ladder_of input).floor_pct ≼ locked)
              × (r.stop_premium ≡ some stop)
              × (capped_for input locked ≼ stop))
  unfolding ratchet_profit_lock floor_result locked_result
  ratchet_profit_lock_arms input =
      let peak = peak_return input in
      let ladder = ladder_of input in
      let base = raise_stop input.stop_premium (floor_of input) in
      elim (Bool-cases (d.le ladder.arm_pct peak)) [
        | inl armed ↦
            let at = locked_above peak ladder armed in
            let locked = locked_at peak ladder in
            rw (at, armed, ratchet_profit_lock)
              (
                refl,
                λ _. (
                  locked,
                  max_of base (capped_for input locked),
                  refl,
                  le-max_left laws ladder.floor_pct _,
                  refl,
                  le-max_right laws base (capped_for input locked),
                ),
              )
        | inr idle ↦ rw (locked_below peak ladder idle, idle, ratchet_profit_lock) (refl, λ h. cc)
      ]

  -- If rounding to the cent keeps the order, and the old stop, the disaster stop and the rounded cent
  -- less than the peak are under a level, then the new stop is under that level.
  pub ratchet_profit_lock-IsUnder :
      (round_mono : (a b : N) → a ≼ b → round2 a ≼ round2 b)
      → (input : ProfitLockInput N) (top : N) → IsUnder input.stop_premium (some top)
      → floor_of input ≼ top
      → round2 (cent_under (lock_peak input)) ≼ top
      → IsUnder (ratchet_profit_lock input).stop_premium (some top)
  unfolding ratchet_profit_lock floor_result locked_result
  ratchet_profit_lock-IsUnder round_mono input top old floored cent =
      let base = raise_stop-le laws input.stop_premium (floor_of input) top old floored in
      elim (Option-cases (locked_return_for (peak_return input) (ladder_of input))) [
        | inl idle ↦ rw (idle, ratchet_profit_lock) base
        | inr (locked, e) ↦
            rw (e, ratchet_profit_lock)
              (max-le laws _ _ top base (
                le_trans _ _ _ (round_mono _ _ (min-le_right laws _ (cent_under (lock_peak input))))
                  cent))
      ]
