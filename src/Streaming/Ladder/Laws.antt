-- ===== src/Streaming/Ladder/Laws.antt =====
-- When the ladder moves, and what a move subscribes.
use native.Mathlib.Nat.{div-add-mod}
use nest_js_mega_backend.Prelude.{
  ℕ, ◌+◌, ◌*◌, ◌≤◌, ◌<◌, ◌≡◌, ◌≢◌, ◌⊎◌, refl, true, false, not, ◌&&◌, ◌||◌, Option, none, some,
  List, String, arith, has, has-filter,
}
use nest_js_mega_backend.Prelude.Int.{neg_part, pos_part}
use nest_js_mega_backend.Streaming.Ladder.{
  normalize_ladder_strike_count, window_total, ladder_strike_offsets, compute_nearest_strike,
  distance, should_recenter_ladder, resolve_ladder_subscriptions,
}

-- The nearest strike lies within half an increment of the spot.
nearest_close :
    (spot inc : ℕ)
    → 0 < inc
    → (2 * compute_nearest_strike spot inc ≤ 2 * spot + inc)
      × (2 * spot < 2 * compute_nearest_strike spot inc + inc)
unfolding compute_nearest_strike
nearest_close spot inc h = omega (arith, div-add-mod (2 * spot + inc) (2 * inc))

-- A ladder that was centered at one spot stays where it is, within one day, until the spot has
-- moved by two increments, and is built anew once it has moved by four.
pub should_recenter_ladder_hysteresis :
    (old spot inc : ℕ)
    → 0 < inc
    → let again =
        should_recenter_ladder
          (compute_nearest_strike spot inc)
          (some (compute_nearest_strike old inc))
          inc
          false in
      (distance spot old ≤ 2 * inc → again ≡ false) × (4 * inc ≤ distance spot old → again ≡ true)
unfolding should_recenter_ladder
should_recenter_ladder_hysteresis old spot inc h =
    let a = nearest_close old inc h in let b = nearest_close spot inc h in ground arith

window_total_pos : (count : Option ℕ) → 0 < window_total count
unfolding window_total normalize_ladder_strike_count
window_total_pos none = omega arith
window_total_pos (some n) = ground arith

-- The number of strikes that a client gets for a count.
abbrev pub IsSized : Option ℕ → ℕ → Type 0
IsSized none size = size ≡ 16
IsSized (some n) size =
    ((n ≡ 8) ⊎ (n ≡ 12) ⊎ (n ≡ 16) ⊎ (n ≡ 24) ⊎ (n ≡ 32) → size ≡ n)
    × (n ≡ 0 → size ≡ 200)
    × (n ≢ 0 → n ≢ 8 → n ≢ 12 → n ≢ 16 → n ≢ 24 → n ≢ 32 → size ≡ 16)

window_total-IsSized : (count : Option ℕ) → IsSized count (window_total count)
unfolding window_total normalize_ladder_strike_count
window_total-IsSized none = refl
window_total-IsSized (some n) = (λ h. ground arith, λ h. ground arith, λ a b c d e f. ground arith)

-- The window holds as many strikes as the client asked for when the count is 8, 12, 16, 24 or 32,
-- two hundred when it is 0, and sixteen for any other count or none. It holds the strike at the
-- money, and as many strikes above it as below it or one more.
pub ladder_strike_offsets_window :
    (count : Option ℕ)
    → let o = ladder_strike_offsets count in
      IsSized count (neg_part o.low + 1 + o.high)
      × (pos_part o.low ≡ 0)
      × (neg_part o.low ≤ o.high)
      × (o.high ≤ neg_part o.low + 1)
unfolding ladder_strike_offsets
ladder_strike_offsets_window count =
    let positive = window_total_pos count in
    let whole : neg_part (ladder_strike_offsets count).low + 1 + (ladder_strike_offsets count).high
        ≡ window_total count =
      ground arith in
    (rw whole (window_total-IsSized count), ground arith, ground arith, ground arith)

-- If the desk was subscribed to the old window and to the pinned symbols, then after a move it is
-- subscribed to the new window and the pinned symbols, and to nothing else.
pub resolve_ladder_subscriptions_lem :
    (new current pinned : List String) (k : String)
    → let r = resolve_ladder_subscriptions new current pinned in
      let before = has current k || has pinned k in
      ((before && not (has r.to_unsub k)) || has r.to_sub k) ≡ (has new k || has pinned k)
unfolding resolve_ladder_subscriptions
resolve_ladder_subscriptions_lem new current pinned k =
    rw (has-filter _ current k, has-filter _ new k) (ground arith)

-- A pinned symbol is in neither list, and no symbol is in both.
pub resolve_ladder_subscriptions_pinned :
    (new current pinned : List String) (k : String)
    → let r = resolve_ladder_subscriptions new current pinned in
      (has pinned k ≡ true → (has r.to_sub k ≡ false) × (has r.to_unsub k ≡ false))
      × ((has r.to_sub k && has r.to_unsub k) ≡ false)
unfolding resolve_ladder_subscriptions
resolve_ladder_subscriptions_pinned new current pinned k =
    rw (has-filter _ current k, has-filter _ new k) (ground arith)
