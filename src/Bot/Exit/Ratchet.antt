-- ===== src/Bot/Exit/Ratchet.antt =====
-- The ratchet of the premium stop, `ratchetPremiumStop`.
use nest_js_mega_backend.Prelude.{
  ◌≡◌, refl, true, Option, none, some, arith, inl, inr, Bool-cases, or_else,
}
use nest_js_mega_backend.Prelude.Double.{Double, IsOrdered, IsUnder, ◌≼◌, max_of, min_of}
use nest_js_mega_backend.Prelude.Order.{
  le-max_left, le-max_right, max-le, min-le_right, min_mono, IsUnder-refl,
}
use nest_js_mega_backend.Bot.Exit.{
  RatchetStopInput, peak_of, arms, desired_of, cent_under, raise_stop, ratchet_premium_stop,
  down_pct,
}

module _ {N : Type 0} ⦃d : Double N⦄ (laws : IsOrdered N) where
  open laws use {le_refl, le_trans, le_total}

  pub raise_stop-IsUnder :
      (stop : Option N) (level : N) → IsUnder stop (some (raise_stop stop level))
  raise_stop-IsUnder none level = tt
  raise_stop-IsUnder (some stop) level = le-max_left laws stop level

  pub le-raise_stop : (stop : Option N) (level : N) → level ≼ raise_stop stop level
  le-raise_stop none level = le_refl level
  le-raise_stop (some stop) level = le-max_right laws stop level

  pub raise_stop-le :
      (stop : Option N) (level top : N)
      → IsUnder stop (some top)
      → level ≼ top
      → raise_stop stop level ≼ top
  raise_stop-le none level top h k = k
  raise_stop-le (some stop) level top h k = max-le laws stop level top h k

  pub peak_over :
      (peak : Option N) (entry bid : N) → IsUnder peak (some (max_of (or_else peak entry) bid))
  peak_over none entry bid = tt
  peak_over (some peak) entry bid = le-max_left laws peak bid

  -- A tick never lowers the stop, never lowers the peak, and never disarms the trail.
  pub ratchet_premium_stop_monotone :
      (input : RatchetStopInput N)
      → let r = ratchet_premium_stop input in
        IsUnder input.stop_premium r.stop_premium
        × IsUnder input.peak_bid (some r.peak_bid)
        × (input.option_bid ≼ r.peak_bid)
        × (input.trail_armed ≡ true → r.trail_armed ≡ true)
  unfolding ratchet_premium_stop
  ratchet_premium_stop_monotone input =
      let peak = peak_over input.peak_bid input.entry_premium input.option_bid in
      let bid = le-max_right laws (or_else input.peak_bid input.entry_premium) input.option_bid in
      elim (Bool-cases (arms input)) [
        | inl armed ↦
            rw (armed, ratchet_premium_stop)
              (raise_stop-IsUnder input.stop_premium _, peak, bid, λ _. refl)
        | inr idle ↦
            rw (idle, ratchet_premium_stop)
              (IsUnder-refl laws input.stop_premium, peak, bid, λ h. ground arith)
      ]

  -- Once the trail is armed the stop is at least each of the three floors, or a cent under the peak
  -- where a floor is above that.
  pub ratchet_premium_stop_floors :
      (input : RatchetStopInput N)
      → arms input ≡ true
      → (stop : N) × ((ratchet_premium_stop input).stop_premium ≡ some stop)
        × (min_of input.breakeven_bid (cent_under (peak_of input)) ≼ stop)
        × (min_of input.min_lock_bid (cent_under (peak_of input)) ≼ stop)
        × (min_of (d.mul (peak_of input) (down_pct input.trail_pct)) (cent_under (peak_of input))
            ≼ stop)
  unfolding ratchet_premium_stop
  ratchet_premium_stop_floors input armed =
      let trail = d.mul (peak_of input) (down_pct input.trail_pct) in
      let under = cent_under (peak_of input) in
      let keeps = λ (a : N) (h : a ≼ desired_of input).
        le_trans _ _ _ (min_mono laws a (desired_of input) under h)
          (le-raise_stop input.stop_premium (min_of (desired_of input) under)) in
      let first = le-max_left laws (max_of trail input.breakeven_bid) input.min_lock_bid in
      rw (armed, ratchet_premium_stop)
        (
          raise_stop input.stop_premium (min_of (desired_of input) under),
          refl,
          keeps _ (le_trans _ _ _ (le-max_right laws trail input.breakeven_bid) first),
          keeps _ (le-max_right laws (max_of trail input.breakeven_bid) input.min_lock_bid),
          keeps _ (le_trans _ _ _ (le-max_left laws trail input.breakeven_bid) first),
        )

  -- A stop that lies a cent or more under the new peak does so after the tick as well.
  pub ratchet_premium_stop-IsUnder_peak :
      (input : RatchetStopInput N)
      → IsUnder input.stop_premium (some (cent_under (peak_of input)))
      → IsUnder
          (ratchet_premium_stop input).stop_premium
          (some (cent_under (ratchet_premium_stop input).peak_bid))
  unfolding ratchet_premium_stop
  ratchet_premium_stop-IsUnder_peak input under = elim (Bool-cases (arms input)) [
    | inl armed ↦
        rw (armed, ratchet_premium_stop)
          (raise_stop-le input.stop_premium _ _ under (min-le_right laws _ _))
    | inr idle ↦ rw (idle, ratchet_premium_stop) under
  ]

  pub ratchet_peak :
      (input : RatchetStopInput N) → (ratchet_premium_stop input).peak_bid ≡ peak_of input
  unfolding ratchet_premium_stop
  ratchet_peak input = elim (Bool-cases (arms input)) [
    | inl armed ↦ rw (armed, ratchet_premium_stop)
    | inr idle ↦ rw (idle, ratchet_premium_stop)
  ]
