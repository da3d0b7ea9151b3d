-- ===== src/Pnl/Fifo/Turns.antt =====
-- Which fills the loop of `matchFills` opens and closes its matches with.
use nest_js_mega_backend.Prelude.{
  ℕ, zero, suc, ◌≤◌, ◌≡◌, refl, List, [], ◌∷◌, String, All, All-append, ◌⊎◌, inl, inr, Bool-cases,
  length, sym, All-map, ◌||◌, ◌-◌, ◌==◌, min, ◌∙◌, arith,
}
use nest_js_mega_backend.Prelude.Int.{ℤ, abs}
use nest_js_mega_backend.Pnl.Fifo.{
  FifoFillInput, OpenLot, OrderSource, RealizedTradeMatch, absorb, open_rest, step, match_sorted,
  source_of, signed_qty, toward_zero, shrink, is_zero, same_direction, match_of, new_lot,
}
use nest_js_mega_backend.Pnl.Fifo.Pairs.{Any, Any-map, InTurn, IsByTime}

-- The fill has the match's symbol and source, and it is the one that the match opens with: its id, its
-- price and its time.
abbrev pub Opens : RealizedTradeMatch → FifoFillInput → Type 0
Opens m f =
    (f.symbol ≡ m.symbol)
    × (source_of f ≡ m.source)
    × (f.id ≡ m.open_fill_id)
    × (f.price ≡ m.open_price)
    × (f.transaction_date ≡ m.opened_at)

abbrev pub Closes : RealizedTradeMatch → FifoFillInput → Type 0
Closes m f =
    (f.symbol ≡ m.symbol)
    × (source_of f ≡ m.source)
    × (f.id ≡ m.close_fill_id)
    × (f.price ≡ m.close_price)
    × (f.transaction_date ≡ m.closed_at)

module _ (symbol : String) (source : OrderSource) where
  abbrev pub KeyOf : FifoFillInput → Type 0
  KeyOf f = (f.symbol ≡ symbol) × (source_of f ≡ source)

  abbrev pub IsLot : OpenLot → FifoFillInput → Type 0
  IsLot lot f =
      (f.symbol ≡ symbol)
      × (source_of f ≡ source)
      × (f.id ≡ lot.fill_id)
      × (f.price ≡ lot.price)
      × (f.transaction_date ≡ lot.opened_at)

  -- The lot was opened by one of the fills that were seen.
  abbrev pub LotOf : List FifoFillInput → OpenLot → Type 0
  LotOf seen lot = Any (IsLot lot) seen

  -- The match closes with this fill what one of those seen opened.
  abbrev ClosedBy : List FifoFillInput → FifoFillInput → RealizedTradeMatch → Type 0
  ClosedBy seen fill m = Any (Opens m) seen × Closes m fill

  -- Its opening was seen and its closing is still to come, or both are to come, in this order.
  abbrev pub MatchOf : (seen coming : List FifoFillInput) → RealizedTradeMatch → Type 0
  MatchOf seen coming m =
      (Any (Opens m) seen × Any (Closes m) coming) ⊎ InTurn (Opens m) (Closes m) coming

  shrink_lots :
      (seen : List FifoFillInput) (lot : OpenLot) (rest : List OpenLot) (c : ℕ)
      → All (LotOf seen) (lot ∷ rest)
      → All (LotOf seen) (shrink lot c rest)
  shrink_lots seen lot rest c h = elim (Bool-cases (lot.remaining - c == 0)) [
    | inl gone ↦ rw gone h.1
    | inr left ↦ rw left h
  ]

  match_of-ClosedBy :
      (seen : List FifoFillInput) (fill : FifoFillInput) (lot : OpenLot) (c mult : ℕ)
      → KeyOf fill
      → LotOf seen lot
      → ClosedBy seen fill (match_of source mult fill lot c)
  match_of-ClosedBy seen fill lot c mult (same, from) h = (
    Any-map seen (λ f (e, o, i, q, t). (e ∙ sym same, o, i, q, t)) h,
    (refl, from, refl, refl, refl),
  )

  absorb-ClosedBy :
      (seen : List FifoFillInput) (n mult : ℕ) (fill : FifoFillInput) (remaining : ℤ)
      (lots : List OpenLot)
      → KeyOf fill
      → All (LotOf seen) lots
      → let r = absorb n source mult fill remaining lots in
        All (LotOf seen) r.lots × All (ClosedBy seen fill) r.matches
  unfolding absorb
  absorb-ClosedBy seen zero mult fill remaining lots k h = (h, tt)
  absorb-ClosedBy seen (suc n) mult fill remaining [] k h = (h, tt)
  absorb-ClosedBy seen (suc n) mult fill remaining (lot ∷ rest) k h =
      let c = min (abs remaining) lot.remaining in
      let ih =
        absorb-ClosedBy seen n mult fill (toward_zero remaining c) (shrink lot c rest) k
          (shrink_lots seen lot rest c h) in
      elim (Bool-cases (is_zero remaining || same_direction lot.direction remaining)) [
        | inl stop ↦ rw stop (h, tt)
        | inr go ↦ rw go (ih.0, (match_of-ClosedBy seen fill lot c mult k h.0, ih.1))
      ]

  open_lots :
      (seen : List FifoFillInput) (fill : FifoFillInput) (remaining : ℤ) (lots : List OpenLot)
      → KeyOf fill
      → All (LotOf seen) lots
      → All (LotOf (fill ∷ seen)) (open_rest fill remaining lots)
  unfolding open_rest
  open_lots seen fill remaining lots (same, from) h =
      let old = All-map {Q = LotOf (fill ∷ seen)} lots (λ lot l. inr l) h in
      elim (Bool-cases (is_zero remaining)) [
        | inl nothing ↦ rw nothing old
        | inr something ↦ rw something (
            All-append (LotOf (fill ∷ seen)) lots (new_lot fill remaining ∷ []) old
              (inl (same, from, refl, refl, refl), tt))
      ]

  step-ClosedBy :
      (seen : List FifoFillInput) (mult : ℕ) (fill : FifoFillInput) (lots : List OpenLot)
      → KeyOf fill
      → All (LotOf seen) lots
      → let r = step source mult fill lots in
        All (LotOf (fill ∷ seen)) r.0 × All (ClosedBy seen fill) r.1
  unfolding step
  step-ClosedBy seen mult fill lots k h =
      let (left, closed) =
        absorb-ClosedBy seen (suc (length lots)) mult fill (signed_qty fill) lots k h in
      (open_lots seen fill _ _ k left, closed)

  MatchOf-later :
      (seen coming : List FifoFillInput) (fill : FifoFillInput) (m : RealizedTradeMatch)
      → MatchOf (fill ∷ seen) coming m
      → MatchOf seen (fill ∷ coming) m
  MatchOf-later seen coming fill m (inl (inl o, c)) = inr (inl (o, c))
  MatchOf-later seen coming fill m (inl (inr o, c)) = inl (o, inr c)
  MatchOf-later seen coming fill m (inr both_come) = inr (inr both_come)

  pub match_sorted-MatchOf :
      (seen : List FifoFillInput) (mult : ℕ) (sorted : List FifoFillInput) (lots : List OpenLot)
      → All KeyOf sorted
      → All (LotOf seen) lots
      → All (MatchOf seen sorted) (match_sorted source mult sorted lots).1
  unfolding match_sorted
  match_sorted-MatchOf seen mult [] lots k h = tt
  match_sorted-MatchOf seen mult (fill ∷ sorted) lots k h =
      let (left, closed) = step-ClosedBy seen mult fill lots k.0 h in
      let later = match_sorted-MatchOf (fill ∷ seen) mult sorted _ k.1 left in
      All-append (MatchOf seen (fill ∷ sorted)) _ _ (All-map _ (λ m (o, c). inl (o, inl c)) closed)
        (All-map _ (λ m. MatchOf-later seen sorted fill m) later)

Closes-time :
    (m : RealizedTradeMatch) (t : ℕ) (xs : List FifoFillInput)
    → All (λ y. t ≤ y.transaction_date) xs
    → Any (Closes m) xs
    → t ≤ m.closed_at
Closes-time m t [] h c = elim c [ ]
Closes-time m t (x ∷ xs) h (inl c) = let e = c.4 in omega arith
Closes-time m t (x ∷ xs) h (inr c) = Closes-time m t xs h.1 c

-- In a list by time the opening fill is no later than the closing one.
pub InTurn-time :
    (m : RealizedTradeMatch) (xs : List FifoFillInput)
    → IsByTime xs
    → InTurn (Opens m) (Closes m) xs
    → m.opened_at ≤ m.closed_at
InTurn-time m [] h c = elim c [ ]
InTurn-time m (x ∷ xs) h (inl (o, c)) =
    let late = Closes-time m x.transaction_date xs h.0 c in let e = o.4 in omega arith
InTurn-time m (x ∷ xs) h (inr c) = InTurn-time m xs h.1 c
