-- ===== src/Bot/Strategy/RangeLaws.antt =====
-- The opening range, and the breakouts of it.
use mathlib.Core.Path.{subst}
use mathlib.Core.Option.{some_inj}
use nest_js_mega_backend.Prelude.{
  ℕ, ◌≡◌, refl, sym, ◌∙◌, ap, true, Option, none, some, List, [], ◌∷◌, ◌++◌, filter, arith, All,
  All-filter,
}
use nest_js_mega_backend.Prelude.Double.{Double, IsOrdered, ◌≼◌, max_of, min_of}
use nest_js_mega_backend.Prelude.Order.{le-max_left, le-max_right, min-le_left, min-le_right}
use nest_js_mega_backend.BotV2.Bars.{BotCandle}
use nest_js_mega_backend.Bot.Strategy.{
  SignalDirection, OrbRange, last_two, last_of, highest, lowest, range_of, is_opening,
  compute_orb_range, breakout, crossed, evaluate_orb_5m, evaluate_orb_5m_crossover,
}

last_two-append :
    {A : Type 0} (xs : List A) (prev last : A)
    → last_two (xs ++ (prev ∷ (last ∷ []))) ≡ some (prev, last)
unfolding last_two
last_two-append [] prev last = refl
last_two-append (x ∷ []) prev last = refl
last_two-append (x ∷ (y ∷ [])) prev last = refl
last_two-append (x ∷ (y ∷ (z ∷ xs))) prev last = last_two-append (y ∷ (z ∷ xs)) prev last

last_two-append_three :
    {A : Type 0} (xs : List A) (prev last next : A)
    → last_two (xs ++ (prev ∷ (last ∷ (next ∷ [])))) ≡ some (last, next)
unfolding last_two
last_two-append_three [] prev last next = refl
last_two-append_three (x ∷ []) prev last next = refl
last_two-append_three (x ∷ (y ∷ [])) prev last next = refl
last_two-append_three (x ∷ (y ∷ (z ∷ xs))) prev last next =
    last_two-append_three (y ∷ (z ∷ xs)) prev last next

module _ {N : Type 0} ⦃d : Double N⦄ where
  crossed_once :
      (orb : OrbRange N) (prev last next : BotCandle N) (direction : SignalDirection)
      → crossed orb prev last ≡ some direction
      → (breakout orb last ≡ some direction) × (crossed orb last next ≡ none)
  crossed_once orb prev last next direction fires = ground arith

  -- A crossover that fires on a bar does not fire on the next one: the bar before it has closed out
  -- of the range.
  pub evaluate_orb_5m_crossover_once :
      (candles : List (BotCandle N)) (prev last next : BotCandle N) (orb : Option (OrbRange N))
      (direction : SignalDirection)
      → evaluate_orb_5m_crossover (candles ++ (prev ∷ (last ∷ []))) orb ≡ some direction
      → (evaluate_orb_5m (last ∷ []) orb ≡ some direction)
        × (evaluate_orb_5m_crossover (candles ++ (prev ∷ (last ∷ (next ∷ [])))) orb ≡ none)
  unfolding evaluate_orb_5m_crossover evaluate_orb_5m last_of
  evaluate_orb_5m_crossover_once candles prev last next none direction fires = absurd (cc fires)
  evaluate_orb_5m_crossover_once candles prev last next (some orb) direction fires =
      let at_last = last_two-append candles prev last in
      let at_next = last_two-append_three candles prev last next in
      let (out, silent) = crossed_once orb prev last next direction (
        sym (ap (λ found. elim found [ none ↦ none | some two ↦ crossed orb two.0 two.1 ]) at_last)
        ∙ fires) in
      (
        out,
        ap (λ found. elim found [ none ↦ none | some two ↦ crossed orb two.0 two.1 ]) at_next
            ∙ silent,
      )

module _ {N : Type 0} ⦃d : Double N⦄ (laws : IsOrdered N) where
  open laws use {le_refl, le_trans, le_total}

  highest_above : (high : N) (candles : List (BotCandle N)) → high ≼ highest high candles
  highest_above high [] = le_refl high
  highest_above high (c ∷ candles) =
      le_trans _ _ _ (le-max_left laws high c.high) (highest_above (max_of high c.high) candles)

  lowest_below : (low : N) (candles : List (BotCandle N)) → lowest low candles ≼ low
  lowest_below low [] = le_refl low
  lowest_below low (c ∷ candles) =
      le_trans _ _ _ (lowest_below (min_of low c.low) candles) (min-le_left laws low c.low)

  -- The bar lies in the range.
  abbrev pub IsInside : OrbRange N → BotCandle N → Type 0
  IsInside orb c = (c.high ≼ orb.high) × (orb.low ≼ c.low)

  range_All :
      (high low : N) (candles : List (BotCandle N))
      → All (IsInside (record { high = highest high candles; low = lowest low candles })) candles
  range_All high low [] = tt
  range_All high low (c ∷ candles) = (
    (
      le_trans _ _ _ (le-max_right laws high c.high) (highest_above (max_of high c.high) candles),
      le_trans _ _ _ (lowest_below (min_of low c.low) candles) (min-le_right laws low c.low),
    ),
    range_All (max_of high c.high) (min_of low c.low) candles,
  )

  range_of-All :
      (candles : List (BotCandle N)) (orb : OrbRange N)
      → range_of candles ≡ some orb
      → All (IsInside orb) candles
  range_of-All [] orb e = absurd (cc e)
  range_of-All (c ∷ candles) orb e =
      subst (λ orb. All (IsInside orb) (c ∷ candles)) (some_inj.0 e)
        ((highest_above c.high candles, lowest_below c.low candles), range_All c.high c.low candles)

  -- Every bar that opens in the first five minutes of the session lies in the opening range, if the
  -- numbers are ordered and there is a range.
  pub compute_orb_range-All :
      (candles : List (BotCandle N)) (start : ℕ) (orb : OrbRange N)
      → compute_orb_range candles start ≡ some orb
      → All (λ c. is_opening start c ≡ true → IsInside orb c) candles
  unfolding compute_orb_range
  compute_orb_range-All candles start orb e =
      All-filter (IsInside orb) (is_opening start) candles
        (range_of-All (filter (is_opening start) candles) orb (ground arith))
