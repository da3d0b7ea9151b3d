-- ===== src/Streaming/Ladder/Tests.antt =====
-- The strike window, ladder-recenter.util.ts, on concrete numbers and symbols.
use nest_js_mega_backend.Prelude.{
  ◌+◌, ◌*◌, ◌≤◌, ◌<◌, ◌≡◌, refl, true, false, some, List, [], ◌∷◌, String, arith, length, All,
  flatten,
}
use nest_js_mega_backend.Prelude.Int.{neg_part, pos_part}
use nest_js_mega_backend.Streaming.Ladder.{
  should_recenter_ladder, compute_nearest_strike, distance, ladder_strike_offsets, chunk_array,
}
use nest_js_mega_backend.Streaming.Ladder.Laws.{
  IsSized, should_recenter_ladder_hysteresis, ladder_strike_offsets_window,
}
use nest_js_mega_backend.Streaming.Ladder.Chunks.{chunk_array_lem}

abbrev old_window : List String
old_window = "a" ∷ "b" ∷ "c" ∷ []

abbrev new_window : List String
new_window = "b" ∷ "c" ∷ "d" ∷ []

abbrev pins : List String
pins = "a" ∷ []

nearest : compute_nearest_strike 50_250 500 ≡ 50_500
unfolding compute_nearest_strike
nearest = refl

chunks_of_two : chunk_array old_window 2 ≡ some (("a" ∷ "b" ∷ []) ∷ ("c" ∷ []) ∷ [])
unfolding chunk_array
chunks_of_two = refl

should_recenter_ladder_hysteresis_example :
    let again =
      should_recenter_ladder
        (compute_nearest_strike 50_500 500)
        (some (compute_nearest_strike 50_000 500))
        500
        false in
    (distance 50_500 50_000 ≤ 2 * 500 → again ≡ false)
    × (4 * 500 ≤ distance 50_500 50_000 → again ≡ true)
should_recenter_ladder_hysteresis_example =
    should_recenter_ladder_hysteresis 50_000 50_500 500 (omega arith)

ladder_strike_offsets_window_example :
    let o = ladder_strike_offsets (some 12) in
    IsSized (some 12) (neg_part o.low + 1 + o.high)
    × (pos_part o.low ≡ 0)
    × (neg_part o.low ≤ o.high)
    × (o.high ≤ neg_part o.low + 1)
ladder_strike_offsets_window_example = ladder_strike_offsets_window (some 12)

chunk_array_lem_example :
    (chunks : List (List String)) × (chunk_array old_window 2 ≡ some chunks)
    × (flatten chunks ≡ old_window)
    × All (λ c. (0 < length c) × (length c ≤ 2)) chunks
chunk_array_lem_example = chunk_array_lem old_window 1
