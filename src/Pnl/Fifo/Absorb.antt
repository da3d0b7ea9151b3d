-- ===== src/Pnl/Fifo/Absorb.antt =====
-- The `while` loop of `matchFills`: what one fill does to the open lots of its book.
use nest_js_mega_backend.Prelude.{
  ℕ, zero, suc, ◌+◌, ◌≤◌, ◌<◌, min, ◌≡◌, true, false, Bool, List, [], ◌∷◌, arith, All, length, ◌⊎◌,
  inl, inr, Bool-cases, ◌||◌,
}
use nest_js_mega_backend.Prelude.Int.{ℤ, pos, negsuc, ◌+ℤ◌, ◌-ℤ◌, abs, int_laws}
use nest_js_mega_backend.Pnl.Fifo.{
  FifoFillInput, OpenLot, OrderSource, TradeDirection, RealizedTradeMatch, Absorbed, absorb, shrink,
  toward_zero, same_direction, is_zero, minus,
}

-- A quantity held on one side, as a signed number.
abbrev pub of_side : TradeDirection → ℕ → ℤ
of_side TradeDirection.long n = pos n
of_side TradeDirection.short n = minus n

abbrev pub signed_lot : OpenLot → ℤ
signed_lot lot = of_side lot.direction lot.remaining

-- The position that the open lots hold, negative when it is short.
abbrev pub net : List OpenLot → ℤ
net [] = pos 0
net (lot ∷ lots) = signed_lot lot +ℤ net lots

abbrev pub OnSide : TradeDirection → OpenLot → Type 0
OnSide d lot = (lot.direction ≡ d) × (0 < lot.remaining)

-- What the loop leaves: it stops because nothing is left, no lot is left, or the sides agree.
abbrev pub IsDone : TradeDirection → Absorbed → Type 0
IsDone d r = (r.remaining ≡ pos 0) ⊎ ((r.lots ≡ []) ⊎ (same_direction d r.remaining ≡ true))

-- The quantity of the open lots, and of the matches.
abbrev pub total : List OpenLot → ℕ
total [] = 0
total (lot ∷ lots) = lot.remaining + total lots

abbrev pub matched : List RealizedTradeMatch → ℕ
matched [] = 0
matched (m ∷ ms) = m.quantity + matched ms

pub record IsAbsorbed (d : TradeDirection) (remaining : ℤ) (lots : List OpenLot) (r : Absorbed)
    : Type 0 where
  pub side : All (OnSide d) r.lots
  pub position : net r.lots +ℤ r.remaining ≡ net lots +ℤ remaining
  pub lots_shrink : matched r.matches + total r.lots ≡ total lots
  pub fill_shrinks : matched r.matches + abs r.remaining ≡ abs remaining
  pub positive : All (λ m. 0 < m.quantity) r.matches
  pub finished : IsDone d r

abbrev pub stops_here : TradeDirection → ℤ → Bool
stops_here d remaining = is_zero remaining || same_direction d remaining

toward_zero-abs : (r : ℤ) (c : ℕ) → c ≤ abs r → c + abs (toward_zero r c) ≡ abs r
unfolding toward_zero ◌+ℤ◌ ◌-ℤ◌
toward_zero-abs (pos n) c h = ground arith
toward_zero-abs (negsuc n) c h = ground arith

module _ (remaining : ℤ) (lot : OpenLot) (rest : List OpenLot) where
  abbrev pub close_qty : ℕ
  close_qty = min (abs remaining) lot.remaining

  abbrev pub left : List OpenLot
  left = shrink lot close_qty rest

  abbrev IsOneRound : TradeDirection → Type 0
  IsOneRound d =
      All (OnSide d) left
      × (net left +ℤ toward_zero remaining close_qty ≡ net (lot ∷ rest) +ℤ remaining)
      × ((toward_zero remaining close_qty ≡ pos 0) ⊎ (left ≡ rest))

  pub left_side : (d : TradeDirection) → All (OnSide d) (lot ∷ rest) → All (OnSide d) left
  left_side d side = ground arith

  -- The quantity that one round closes leaves the lot and the fill.
  round_quantity :
      (d : TradeDirection)
      → 0 < lot.remaining
      → stops_here d remaining ≡ false
      → (close_qty + total left ≡ lot.remaining + total rest)
        × (close_qty + abs (toward_zero remaining close_qty) ≡ abs remaining)
        × (0 < close_qty)
  round_quantity d h test = ground (arith, toward_zero-abs remaining close_qty)

pub toward_zero_side :
    (d : TradeDirection) (r : ℤ) (c : ℕ)
    → stops_here d r ≡ false
    → toward_zero r c ≡ r +ℤ of_side d c
unfolding toward_zero ◌+ℤ◌ ◌-ℤ◌
toward_zero_side TradeDirection.long (pos n) c test = ground arith
toward_zero_side TradeDirection.long (negsuc n) c test = ground arith
toward_zero_side TradeDirection.short (pos n) c test = ground arith
toward_zero_side TradeDirection.short (negsuc n) c test = ground arith

net-shrink :
    (d : TradeDirection) (lot : OpenLot) (rest : List OpenLot) (c : ℕ)
    → lot.direction ≡ d
    → c ≤ lot.remaining
    → net (shrink lot c rest) +ℤ of_side d c ≡ net (lot ∷ rest)
net-shrink TradeDirection.long lot rest c e h = grind int_laws
net-shrink TradeDirection.short lot rest c e h = grind int_laws

one_round :
    (d : TradeDirection) (remaining : ℤ) (lot : OpenLot) (rest : List OpenLot)
    → All (OnSide d) (lot ∷ rest)
    → stops_here d remaining ≡ false
    → IsOneRound remaining lot rest d
one_round d remaining lot rest side test =
    let c = close_qty remaining lot rest in
    (
      ground arith,
      rw (toward_zero_side d remaining c test)
          (grind (int_laws, net-shrink d lot rest c side.0.0 (omega arith))),
      ground (arith, toward_zero-abs remaining c),
    )

module _ (source : OrderSource) (mult : ℕ) (fill : FifoFillInput) where
  -- The rest of the loop after a round.
  absorb_more :
      (n : ℕ) (d : TradeDirection) (remaining : ℤ) (lot : OpenLot) (rest : List OpenLot)
      → All (OnSide d) (lot ∷ rest)
      → stops_here d remaining ≡ false
      → IsAbsorbed d
          (toward_zero remaining (close_qty remaining lot rest))
          (left remaining lot rest)
          (absorb n source mult fill
            (toward_zero remaining (close_qty remaining lot rest))
            (left remaining lot rest))
      → IsAbsorbed d remaining (lot ∷ rest) (absorb (suc n) source mult fill remaining (lot ∷ rest))
  unfolding absorb
  absorb_more n d remaining lot rest side go ih =
      let round = one_round d remaining lot rest side go in
      let quantity = round_quantity remaining lot rest d side.0.1 go in ground arith

  -- With nothing left the loop stops at once, whatever the fuel.
  absorb-IsAbsorbed_zero :
      (n : ℕ) (d : TradeDirection) (lots : List OpenLot)
      → All (OnSide d) lots
      → IsAbsorbed d (pos 0) lots (absorb n source mult fill (pos 0) lots)
  unfolding absorb
  absorb-IsAbsorbed_zero zero d lots side = ground arith
  absorb-IsAbsorbed_zero (suc n) d [] side = ground arith
  absorb-IsAbsorbed_zero (suc n) d (lot ∷ rest) side = ground arith

  -- On lots of one side, with fuel above their number, the loop runs to its end. The position of lots
  -- and fill together does not change; what the matches close is what the lots lose and what the fill
  -- loses; every match is of a positive quantity; and the lots that stay are of that side still.
  pub absorb-IsAbsorbed :
      (n : ℕ) (d : TradeDirection) (remaining : ℤ) (lots : List OpenLot)
      → length lots < n
      → All (OnSide d) lots
      → IsAbsorbed d remaining lots (absorb n source mult fill remaining lots)
  unfolding absorb
  absorb-IsAbsorbed zero d remaining lots h side = absurd (omega arith)
  absorb-IsAbsorbed (suc n) d remaining [] h side = ground arith
  absorb-IsAbsorbed (suc n) d remaining (lot ∷ rest) h side =
      elim (Bool-cases (stops_here d remaining)) [
        | inl stop ↦ ground (arith)
        | inr go ↦
            let (kept, _, last) = one_round d remaining lot rest side go in
            absorb_more n d remaining lot rest side go (elim last [
              | inl nothing ↦ rw nothing (absorb-IsAbsorbed_zero n d (left remaining lot rest) kept)
              | inr shifted ↦ rw shifted (absorb-IsAbsorbed n d _ rest (omega arith) side.1)
            ])
      ]
