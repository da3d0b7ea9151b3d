-- ===== src/Streaming/Ladder/Chunks.antt =====
-- `chunkArray`: what the chunks hold, and how long they are.
use nest_js_mega_backend.Prelude.{
  ℕ, zero, suc, ◌+◌, ◌≤◌, ◌<◌, ◌≡◌, refl, sym, ◌∙◌, ap, List, ◌++◌, some, arith, All, length, take,
  drop, length-take, length-drop, take-append-drop, drop-drop, drop_all, flatten, ltb, Bool-cases,
  inl, inr,
}
use nest_js_mega_backend.Streaming.Ladder.{chunk_from, chunk_array}

module _ {ℓ} {T : Type ℓ} where
  flatten-chunk_from :
      (fuel n : ℕ) (items : List T) (i : ℕ)
      → length items ≤ fuel + i
      → flatten (chunk_from fuel (suc n) items i) ≡ drop i items
  unfolding chunk_from
  flatten-chunk_from zero n items i h = sym (drop_all i items (omega arith))
  flatten-chunk_from (suc fuel) n items i h = elim (Bool-cases (ltb i (length items))) [
    | inl more ↦ rw more (
        ap (◌++◌ (take (suc n) (drop i items)))
          (flatten-chunk_from fuel n items (i + suc n) (omega arith) ∙ drop-drop i (suc n) items)
        ∙ take-append-drop (suc n) (drop i items))
    | inr done ↦ rw done (sym (drop_all i items (ground arith)))
  ]

  chunk_from_sizes :
      (fuel n : ℕ) (items : List T) (i : ℕ)
      → All (λ c. (0 < length c) × (length c ≤ suc n)) (chunk_from fuel (suc n) items i)
  unfolding chunk_from
  chunk_from_sizes zero n items i = tt
  chunk_from_sizes (suc fuel) n items i =
      let rest = chunk_from_sizes fuel n items (i + suc n) in
      elim (Bool-cases (ltb i (length items))) [
        | inl more ↦ rw more (
          (
            ground (arith, length-take (suc n) (drop i items), length-drop i items),
            omega (arith, length-take (suc n) (drop i items)),
          ),
          rest,
        )
        | inr done ↦ rw done tt
      ]

  -- For a positive size the call returns chunks that hold the items in their order, each of them
  -- of one item at least and of the size at most.
  pub chunk_array_lem :
      (items : List T) (n : ℕ)
      → (chunks : List (List T)) × (chunk_array items (suc n) ≡ some chunks)
        × (flatten chunks ≡ items)
        × All (λ c. (0 < length c) × (length c ≤ suc n)) chunks
  unfolding chunk_array
  chunk_array_lem items n = (
    chunk_from (length items) (suc n) items 0,
    refl,
    flatten-chunk_from (length items) n items 0 (omega arith),
    chunk_from_sizes (length items) n items 0,
  )
