-- ===== src/Pnl/Fifo/Money.antt =====
-- The money of one key: what the matches realize, against what the fills paid and the lots cost.
use nest_js_mega_backend.Prelude.{
  ℕ, zero, suc, ◌+◌, ◌*◌, ◌≤◌, ◌-◌, ◌==◌, Bool-cases, ◌≡◌, refl, true, false, length, ap, List, [],
  ◌∷◌, ◌++◌, arith, All, inl, inr,
}
use nest_js_mega_backend.Prelude.Int.{
  ℤ, pos, negsuc, pos_part, neg_part, ◌+ℤ◌, ◌*ℕ◌, int_laws, +ℤ_zero, +ℤ_parts, sub_ℕ,
}
use nest_js_mega_backend.Pnl.Fifo.{
  FifoFillInput, OpenLot, OrderSource, TradeDirection, RealizedTradeMatch, absorb, shrink,
  toward_zero, realized, open_rest, step, match_sorted, signed_qty, new_lot, is_zero,
}
use nest_js_mega_backend.Pnl.Fifo.Book.{IsBook, step-IsStepped, zero_of_is_zero}
use nest_js_mega_backend.Pnl.Fifo.Absorb.{
  OnSide, close_qty, left_side, of_side, toward_zero_side, stops_here,
}

scale-add : (a b : ℤ) (m : ℕ) → (a +ℤ b) *ℕ m ≡ a *ℕ m +ℤ b *ℕ m
scale-add a b m = omega (int_laws, ap (λ (t : ℕ). t * m) (+ℤ_parts a b))

-- What the lots cost, the fills paid, and the matches realized. A short position costs a negative
-- amount.
abbrev pub cost : List OpenLot → ℤ
cost [] = pos 0
cost (lot ∷ lots) = of_side lot.direction (lot.remaining * lot.price) +ℤ cost lots

abbrev pub paid : List FifoFillInput → ℤ
paid [] = pos 0
paid (fill ∷ fills) = signed_qty fill *ℕ fill.price +ℤ paid fills

abbrev pub pnl : List RealizedTradeMatch → ℤ
pnl [] = pos 0
pnl (m ∷ ms) = m.realized_pnl +ℤ pnl ms

abbrev gain : TradeDirection → ℕ → ℕ → ℕ → ℤ
gain TradeDirection.long close_price open_price qty = sub_ℕ close_price open_price *ℕ qty
gain TradeDirection.short close_price open_price qty = sub_ℕ open_price close_price *ℕ qty

realized-eq-gain : (d : TradeDirection) (p lp c m : ℕ) → realized d p lp c m ≡ gain d p lp c *ℕ m
unfolding realized
realized-eq-gain TradeDirection.long p lp c m = refl
realized-eq-gain TradeDirection.short p lp c m = refl

sub_parts : (a b : ℕ) → pos_part (sub_ℕ a b) + b ≡ neg_part (sub_ℕ a b) + a
sub_parts a b = ground arith

gain-add :
    (d : TradeDirection) (p lp c : ℕ) → gain d p lp c +ℤ of_side d (c * lp) ≡ of_side d (c * p)
gain-add TradeDirection.long p lp c = omega (int_laws, ap (λ (t : ℕ). t * c) (sub_parts p lp))
gain-add TradeDirection.short p lp c =
    omega
      (int_laws, sub_parts 0 (c * lp), sub_parts 0 (c * p), ap (λ (t : ℕ). t * c) (sub_parts lp p))

side-scale : (d : TradeDirection) (c p : ℕ) → of_side d c *ℕ p ≡ of_side d (c * p)
side-scale TradeDirection.long c p = omega int_laws
side-scale TradeDirection.short c p =
    omega (int_laws, sub_parts 0 (c * p), ap (λ (t : ℕ). t * p) (sub_parts 0 c))

side-add : (d : TradeDirection) (a b : ℕ) → of_side d a +ℤ of_side d b ≡ of_side d (a + b)
side-add TradeDirection.long a b = omega int_laws
side-add TradeDirection.short a b =
    omega (int_laws, sub_parts 0 a, sub_parts 0 b, sub_parts 0 (a + b))

split_product : (n c p : ℕ) → c ≤ n → (n - c) * p + c * p ≡ n * p
split_product n c p h =
    let whole : n ≡ (n - c) + c = omega arith in omega (arith, ap (λ (t : ℕ). t * p) whole)

exact : (c n : ℕ) → c ≤ n → (n - c == 0) ≡ true → c ≡ n
exact c n h gone = ground arith

cost-shrink :
    (d : TradeDirection) (lot : OpenLot) (rest : List OpenLot) (c : ℕ)
    → lot.direction ≡ d
    → c ≤ lot.remaining
    → cost (shrink lot c rest) +ℤ of_side d (c * lot.price) ≡ cost (lot ∷ rest)
cost-shrink d lot rest c e h =
    let whole = split_product lot.remaining c lot.price h in
    let sides = side-add d ((lot.remaining - c) * lot.price) (c * lot.price) in
    elim (Bool-cases (lot.remaining - c == 0)) [
      | inl gone ↦ rw (gone, e, exact c lot.remaining h gone) (omega int_laws)
      | inr kept ↦ rw (kept, e, ← whole, ← sides) (omega int_laws)
    ]

cost-append : (xs ys : List OpenLot) → cost (xs ++ ys) ≡ cost xs +ℤ cost ys
cost-append [] ys = omega int_laws
cost-append (x ∷ xs) ys = grind (int_laws, cost-append xs ys)

pub pnl-append : (xs ys : List RealizedTradeMatch) → pnl (xs ++ ys) ≡ pnl xs +ℤ pnl ys
pnl-append [] ys = omega int_laws
pnl-append (x ∷ xs) ys = grind (int_laws, pnl-append xs ys)

-- One round of the loop: what it realizes is what it adds to the cost of lots and fill together.
round_money :
    (d : TradeDirection) (remaining : ℤ) (lot : OpenLot) (rest : List OpenLot) (p c : ℕ)
    → lot.direction ≡ d
    → c ≤ lot.remaining
    → stops_here d remaining ≡ false
    → cost (shrink lot c rest) +ℤ toward_zero remaining c *ℕ p
      ≡ cost (lot ∷ rest) +ℤ remaining *ℕ p +ℤ gain d p lot.price c
round_money d remaining lot rest p c e h test =
    rw
      (
        toward_zero_side d remaining c test,
        scale-add remaining (of_side d c) p,
        side-scale d c p,
        ← gain-add d p lot.price c,
        ← cost-shrink d lot rest c e h,
      )
      (omega int_laws)

carry : (g x x' p w : ℤ) (m : ℕ) → x' ≡ x +ℤ g → p +ℤ x' *ℕ m ≡ w → g *ℕ m +ℤ p +ℤ x *ℕ m ≡ w
carry g x x' p w m h k = rw (← k, h, scale-add) (omega int_laws)

no_change : (a : ℤ) → pos 0 +ℤ a ≡ a
no_change a = omega int_laws

-- Two stages of the loop over the fills.
join :
    (p q a s t b : ℤ) (w : ℤ) (m : ℕ)
    → p +ℤ (a +ℤ s) *ℕ m ≡ b *ℕ m
    → q +ℤ (b +ℤ t) *ℕ m ≡ w
    → p +ℤ q +ℤ (a +ℤ (s +ℤ t)) *ℕ m ≡ w
join p q a s t b w m h k =
    rw (← k, scale-add b t m, ← h, scale-add a (s +ℤ t) m, scale-add s t m, scale-add a s m)
      (omega int_laws)

module _ (source : OrderSource) (mult : ℕ) (fill : FifoFillInput) where
  abbrev worth : List OpenLot → ℤ → ℤ
  worth lots remaining = (cost lots +ℤ remaining *ℕ fill.price) *ℕ mult

  absorb_money :
      (n : ℕ) (d : TradeDirection) (remaining : ℤ) (lots : List OpenLot)
      → All (OnSide d) lots
      → let r = absorb n source mult fill remaining lots in
        pnl r.matches +ℤ worth lots remaining ≡ worth r.lots r.remaining
  unfolding absorb
  absorb_money zero d remaining lots side = omega int_laws
  absorb_money (suc n) d remaining [] side = omega int_laws
  absorb_money (suc n) d remaining (lot ∷ rest) side =
      let c = close_qty remaining lot rest in
      let ih =
        absorb_money n d (toward_zero remaining c) (shrink lot c rest)
          (left_side remaining lot rest d side) in
      elim (Bool-cases (stops_here lot.direction remaining)) [
        | inl stop ↦ rw stop (omega int_laws)
        | inr go ↦ rw go (
            rw (realized-eq-gain lot.direction fill.price lot.price c mult) (
              carry _ _ _ _ _ mult
                (round_money lot.direction remaining lot rest fill.price c refl (omega arith) go)
                ih))
      ]

  cost-new_lot : (r : ℤ) → cost (new_lot fill r ∷ []) ≡ r *ℕ fill.price
  unfolding ◌+ℤ◌ ◌*ℕ◌
  cost-new_lot (pos zero) = ground arith
  cost-new_lot (pos (suc n)) = ground arith
  cost-new_lot (negsuc n) = ground arith

  opened_cost :
      (remaining : ℤ) (lots : List OpenLot)
      → cost (open_rest fill remaining lots) ≡ cost lots +ℤ remaining *ℕ fill.price
  unfolding open_rest
  opened_cost remaining lots = elim (Bool-cases (is_zero remaining)) [
    | inl none_left ↦ rw (none_left, zero_of_is_zero remaining none_left) (omega int_laws)
    | inr some_left ↦
        rw (some_left, cost-append lots (new_lot fill remaining ∷ []), cost-new_lot remaining)
  ]

  step_money :
      (d : TradeDirection) (lots : List OpenLot)
      → All (OnSide d) lots
      → let r = step source mult fill lots in
        pnl r.1 +ℤ worth lots (signed_qty fill) ≡ cost r.0 *ℕ mult
  unfolding step
  step_money d lots side =
      rw (opened_cost) (absorb_money (suc (length lots)) d (signed_qty fill) lots side)

  step_book :
      (lots : List OpenLot)
      → IsBook lots
      → let r = step source mult fill lots in
        pnl r.1 +ℤ worth lots (signed_qty fill) ≡ cost r.0 *ℕ mult
  step_book lots (inl h) = step_money TradeDirection.long lots h
  step_book lots (inr h) = step_money TradeDirection.short lots h

-- From lots of one side, the matches realize the cost of the lots that stay open, less the cost of the
-- first lots and what the fills paid, the costs and the payments times the multiplier.
pub match_sorted_money :
    (source : OrderSource) (mult : ℕ) (fills : List FifoFillInput) (lots : List OpenLot)
    → IsBook lots
    → let r = match_sorted source mult fills lots in
      pnl r.1 +ℤ (cost lots +ℤ paid fills) *ℕ mult ≡ cost r.0 *ℕ mult
unfolding match_sorted
match_sorted_money source mult [] lots h = rw (no_change, +ℤ_zero)
match_sorted_money source mult (fill ∷ fills) lots h =
    let lots' = (step source mult fill lots).0 in
    let matches = (step source mult fill lots).1 in
    let ih =
      match_sorted_money source mult fills lots' (step-IsStepped source mult fill lots h).book in
    rw (pnl-append matches (match_sorted source mult fills lots').1) (
      join (pnl matches) _ (cost lots) _ _ (cost lots') _ mult (step_book source mult fill lots h)
        ih)
