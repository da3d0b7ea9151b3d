-- ===== src/BotV2/Bars/Laws.antt =====
-- The prices, the counts and the times of the bars of bot-v2-bars.util.ts.
use native.Mathlib.Nat.{div-add-mod}
use nest_js_mega_backend.Prelude.{
  ℕ, ◌+◌, ◌*◌, ◌/◌, ◌%◌, ◌≤◌, ◌<◌, ◌≡◌, refl, ◌==◌, leb, Option, none, some, List, [], ◌∷◌, arith,
  All, All-append, Bool-cases, inl, inr,
}
use nest_js_mega_backend.Prelude.Double.{Double, IsOrdered, ◌≼◌, max_of, min_of}
use nest_js_mega_backend.Prelude.Order.{le-max_left, le-max_right, min-le_left, min-le_right}
use nest_js_mega_backend.BotV2.Bars.{
  BotCandle, bucket_of, flat_bar, quarters, minute_of, expand_before, expand_completed_minutes,
  push_price_bar,
}

module _ {N : Type 0} ⦃d : Double N⦄ (laws : IsOrdered N) where
  open laws use {le_refl, le_trans, le_total}

  pub record IsBar (bar : BotCandle N) : Type 0 where
    pub low_open : bar.low ≼ bar.open_price
    pub low_close : bar.low ≼ bar.close
    pub open_high : bar.open_price ≼ bar.high
    pub close_high : bar.close ≼ bar.high

  abbrev pub IsBarOrNone : Option (BotCandle N) → Type 0
  IsBarOrNone none = Unit
  IsBarOrNone (some bar) = IsBar bar

  abbrev pub prints_of : Option (BotCandle N) → ℕ
  prints_of none = 0
  prints_of (some bar) = bar.volume

  flat_bar-IsBar : (price : N) (t v : ℕ) → IsBar (flat_bar price t v)
  flat_bar-IsBar price t v =
      let r = le_refl price in record { low_open = r; low_close = r; open_high = r; close_high = r }

  grown-IsBar :
      (bar : BotCandle N) (price : N)
      → IsBar bar
      → IsBar (record bar {
        high = max_of bar.high price;
        low = min_of bar.low price;
        close = price;
        volume = bar.volume + 1;
      })
  grown-IsBar bar price v = record {
    low_open = le_trans _ _ _ (min-le_left laws bar.low price) v.low_open;
    low_close = min-le_right laws bar.low price;
    open_high = le_trans _ _ _ v.open_high (le-max_left laws bar.high price);
    close_high = le-max_right laws bar.high price;
  }

  in_bucket : (t s : ℕ) → 0 < s → (bucket_of t s ≤ t) × (t < bucket_of t s + s * 1000)
  in_bucket t s h = omega (arith, div-add-mod t (s * 1000))

  -- A print leaves a bar that closes at its price and whose interval holds its time, if the bar in
  -- hand was one of such an interval or none; the current and the closed bar keep their prices
  -- between low and high; and the two count one print more than the bar in hand did.
  pub push_price_bar-IsBar :
      (current : Option (BotCandle N)) (price : N) (t s : ℕ)
      → 0 < s
      → IsBarOrNone current
      → let r = push_price_bar current price t s in
        IsBar r.current
        × IsBarOrNone r.closed
        × (r.current.close ≡ price)
        × (r.current.chart_time ≤ t)
        × (t < r.current.chart_time + s * 1000)
        × (r.current.volume + prints_of r.closed ≡ prints_of current + 1)
  unfolding push_price_bar
  push_price_bar-IsBar none price t s h v =
      let (a, b) = in_bucket t s h in (flat_bar-IsBar price _ 1, tt, refl, a, b, refl)
  push_price_bar-IsBar (some bar) price t s h v =
      let (a, b) = in_bucket t s h in
      elim (Bool-cases (bar.chart_time == bucket_of t s)) [
        | inl same ↦
            rw same (grown-IsBar bar price v, tt, refl, ground arith, ground arith, omega arith)
        | inr moved ↦ rw moved (flat_bar-IsBar price _ 1, v, refl, a, b, omega arith)
      ]

  abbrev pub IsPast : ℕ → BotCandle N → Type 0
  IsPast minute bar = IsBar bar × (bar.chart_time + 15_000 ≤ minute)

  past :
      (minute : ℕ) (price : N) (t v : ℕ) → t + 15_000 ≤ minute → IsPast minute (flat_bar price t v)
  past minute price t v h = (flat_bar-IsBar price t v, h)

  quarters-IsPast :
      (bar : BotCandle N) (k : ℕ)
      → bar.chart_time % 60_000 ≡ 0
      → bar.chart_time < k * 60_000
      → All (IsPast (k * 60_000)) (quarters bar)
  quarters-IsPast bar k aligned before =
      let whole : bar.chart_time + 60_000 ≤ k * 60_000 =
        omega (arith, div-add-mod bar.chart_time 60_000) in
      (
        past _ _ _ _ (omega arith),
        (
          past _ _ _ _ (omega arith),
          (past _ _ _ _ (omega arith), (past _ _ _ _ (omega arith), tt)),
        ),
      )

  expand_before-IsPast :
      (k : ℕ) (minutes : List (BotCandle N))
      → All (λ bar. bar.chart_time % 60_000 ≡ 0) minutes
      → All (IsPast (k * 60_000)) (expand_before (k * 60_000) minutes)
  unfolding expand_before
  expand_before-IsPast k [] h = tt
  expand_before-IsPast k (bar ∷ minutes) h =
      let rest = expand_before-IsPast k minutes h.1 in
      elim (Bool-cases (leb (k * 60_000) bar.chart_time)) [
        | inl later ↦ rw later rest
        | inr earlier ↦ rw earlier (
            All-append (IsPast (k * 60_000)) (quarters bar) _
              (quarters-IsPast bar k h.0 (ground arith)) rest)
      ]

  -- If every minute starts on a full minute, then each bar that is cut from them has ended when the
  -- current minute starts: the minute that still runs gives none.
  pub expand_completed_minutes-IsPast :
      (minutes : List (BotCandle N)) (now : ℕ)
      → All (λ bar. bar.chart_time % 60_000 ≡ 0) minutes
      → All (IsPast (minute_of now)) (expand_completed_minutes minutes now)
  unfolding expand_completed_minutes
  expand_completed_minutes-IsPast minutes now h = expand_before-IsPast (now / 60_000) minutes h
