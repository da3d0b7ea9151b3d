-- ===== src/Pnl/Fifo/Book.antt =====
-- The loop over the sorted fills of one key: positions, quantities, and one side at a time.
use nest_js_mega_backend.Prelude.{
  ℕ, zero, suc, ◌+◌, ◌*◌, ◌<◌, ◌≡◌, refl, ◌∙◌, true, false, Bool-cases, length, List, [], ◌∷◌, ◌++◌,
  arith, All, All-append, ◌⊎◌, inl, inr,
}
use nest_js_mega_backend.Prelude.Int.{ℤ, pos, negsuc, ◌+ℤ◌, abs, int_laws}
use nest_js_mega_backend.Pnl.Fifo.{
  FifoFillInput, OpenLot, new_lot, is_zero, same_direction, OrderSource, TradeDirection,
  RealizedTradeMatch, open_rest, step, match_sorted, signed_qty,
}
use nest_js_mega_backend.Pnl.Fifo.Absorb.{OnSide, net, total, matched, absorb-IsAbsorbed}

-- The open lots are all long or all short, and none is empty.
abbrev pub IsBook : List OpenLot → Type 0
IsBook lots = All (OnSide TradeDirection.long) lots ⊎ All (OnSide TradeDirection.short) lots

abbrev pub IsPositive : RealizedTradeMatch → Type 0
IsPositive m = 0 < m.quantity

net-append : (xs ys : List OpenLot) → net (xs ++ ys) ≡ net xs +ℤ net ys
net-append [] ys = omega int_laws
net-append (x ∷ xs) ys = grind (int_laws, net-append xs ys)

total-append : (xs ys : List OpenLot) → total (xs ++ ys) ≡ total xs + total ys
total-append [] ys = omega arith
total-append (x ∷ xs) ys = omega (arith, total-append xs ys)

pub matched-append :
    (xs ys : List RealizedTradeMatch) → matched (xs ++ ys) ≡ matched xs + matched ys
matched-append [] ys = omega arith
matched-append (x ∷ xs) ys = omega (arith, matched-append xs ys)

record IsOpened (remaining : ℤ) (lots after : List OpenLot) : Type 0 where
  book : IsBook after
  position : net after ≡ net lots +ℤ remaining
  quantity : total after ≡ total lots + abs remaining

new_lot_side :
    (fill : FifoFillInput) (d : TradeDirection) (r : ℤ)
    → same_direction d r ≡ true
    → OnSide d (new_lot fill r)
new_lot_side fill TradeDirection.long (pos n) h = ground arith
new_lot_side fill TradeDirection.long (negsuc n) h = ground arith
new_lot_side fill TradeDirection.short (pos n) h = ground arith
new_lot_side fill TradeDirection.short (negsuc n) h = ground arith

new_lot-IsBook : (fill : FifoFillInput) (r : ℤ) → is_zero r ≡ false → IsBook (new_lot fill r ∷ [])
new_lot-IsBook fill (pos n) h = inl (ground arith)
new_lot-IsBook fill (negsuc n) h = inr (ground arith)

net-new_lot : (fill : FifoFillInput) (r : ℤ) → net (new_lot fill r ∷ []) ≡ r
unfolding ◌+ℤ◌
net-new_lot fill (pos zero) = refl
net-new_lot fill (pos (suc n)) = ground arith
net-new_lot fill (negsuc n) = ground arith

IsBook-of_side : (d : TradeDirection) (lots : List OpenLot) → All (OnSide d) lots → IsBook lots
IsBook-of_side TradeDirection.long lots h = inl h
IsBook-of_side TradeDirection.short lots h = inr h

pub zero_of_is_zero : (r : ℤ) → is_zero r ≡ true → r ≡ pos 0
zero_of_is_zero (pos n) h = ground arith
zero_of_is_zero (negsuc n) h = ground arith

opened-IsBook :
    (fill : FifoFillInput) (d : TradeDirection) (remaining : ℤ) (lots : List OpenLot)
    → All (OnSide d) lots
    → (remaining ≡ pos 0) ⊎ ((lots ≡ []) ⊎ (same_direction d remaining ≡ true))
    → is_zero remaining ≡ false
    → IsBook (lots ++ (new_lot fill remaining ∷ []))
opened-IsBook fill d remaining lots side (inl e) h = ground arith
opened-IsBook fill d remaining lots side (inr (inl e)) h = rw e (new_lot-IsBook fill remaining h)
opened-IsBook fill d remaining lots side (inr (inr e)) h =
    IsBook-of_side d _ (All-append (OnSide d) lots _ side (new_lot_side fill d remaining e, tt))

open_rest-IsOpened :
    (fill : FifoFillInput) (d : TradeDirection) (remaining : ℤ) (lots : List OpenLot)
    → All (OnSide d) lots
    → (remaining ≡ pos 0) ⊎ ((lots ≡ []) ⊎ (same_direction d remaining ≡ true))
    → IsOpened remaining lots (open_rest fill remaining lots)
unfolding open_rest
open_rest-IsOpened fill d remaining lots side done = elim (Bool-cases (is_zero remaining)) [
  | inl none_left ↦ rw none_left record {
    book = IsBook-of_side d lots side;
    position = rw (zero_of_is_zero remaining none_left) (omega int_laws);
    quantity = rw (zero_of_is_zero remaining none_left) (omega arith);
  }
  | inr some_left ↦ rw some_left record {
    book = opened-IsBook fill d remaining lots side done some_left;
    position = rw (net-append lots, net-new_lot fill remaining);
    quantity = omega (arith, total-append lots (new_lot fill remaining ∷ []));
  }
]

-- What one fill does to a book.
pub record IsStepped (moved : ℤ) (lots after : List OpenLot) (matches : List RealizedTradeMatch)
    : Type 0 where
  pub book : IsBook after
  pub position : net after ≡ net lots +ℤ moved
  pub quantity : 2 * matched matches + total after ≡ total lots + abs moved
  pub positive : All IsPositive matches

-- The position that the fills leave behind, and the quantity that they trade.
abbrev pub position_of : List FifoFillInput → ℤ
position_of [] = pos 0
position_of (fill ∷ fills) = signed_qty fill +ℤ position_of fills

abbrev pub volume_of : List FifoFillInput → ℕ
volume_of [] = 0
volume_of (fill ∷ fills) = abs (signed_qty fill) + volume_of fills

pub record IsMatched (fills : List FifoFillInput) (lots after : List OpenLot)
    (matches : List RealizedTradeMatch) : Type 0 where
  pub book : IsBook after
  pub position : net after ≡ net lots +ℤ position_of fills
  pub quantity : 2 * matched matches + total after ≡ total lots + volume_of fills
  pub positive : All IsPositive matches

module _ (source : OrderSource) (mult : ℕ) where
  step_side :
      (fill : FifoFillInput) (d : TradeDirection) (lots : List OpenLot)
      → All (OnSide d) lots
      → let r = step source mult fill lots in IsStepped (signed_qty fill) lots r.0 r.1
  unfolding step
  step_side fill d lots side =
      let loop =
        absorb-IsAbsorbed source mult fill (suc (length lots)) d (signed_qty fill) lots
          (omega arith) side in
      let opened = open_rest-IsOpened fill d _ _ loop.side loop.finished in
      record {
        book = opened.book;
        position = opened.position ∙ loop.position;
        quantity = ground arith;
        positive = loop.positive;
      }

  pub step-IsStepped :
      (fill : FifoFillInput) (lots : List OpenLot)
      → IsBook lots
      → let r = step source mult fill lots in IsStepped (signed_qty fill) lots r.0 r.1
  step-IsStepped fill lots (inl h) = step_side fill TradeDirection.long lots h
  step-IsStepped fill lots (inr h) = step_side fill TradeDirection.short lots h

  -- From lots of one side, the fills leave lots of one side, whose position is the old one and that of
  -- the fills; a matched quantity is taken twice, from a fill that opened and from one that closed, and
  -- what is not matched is open; and every match is of a positive quantity.
  pub match_sorted-IsMatched :
      (fills : List FifoFillInput) (lots : List OpenLot)
      → IsBook lots
      → let r = match_sorted source mult fills lots in IsMatched fills lots r.0 r.1
  unfolding match_sorted
  match_sorted-IsMatched [] lots h = record {
    book = h;
    position = omega int_laws;
    quantity = omega arith;
    positive = tt;
  }
  match_sorted-IsMatched (fill ∷ fills) lots h =
      let first = step-IsStepped fill lots h in
      let (lots', matches) = step source mult fill lots in
      let (lots'', later) = match_sorted source mult fills lots' in
      let rest = match_sorted-IsMatched fills lots' first.book in
      record {
        book = rest.book;
        position = grind (int_laws, first.position, rest.position);
        quantity = omega (arith, matched-append matches later, first.quantity, rest.quantity);
        positive = All-append IsPositive matches later first.positive rest.positive;
      }
