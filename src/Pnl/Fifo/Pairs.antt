-- ===== src/Pnl/Fifo/Pairs.antt =====
-- Two fills at two places of a list, and what grouping and sorting do to them.
use nest_js_mega_backend.Prelude.{
  ℕ, ◌≤◌, ◌≡◌, List, [], ◌∷◌, ◌++◌, String, All, ◌⊎◌, inl, inr, Bool, true, false, Bool-cases,
  arith,
}
use nest_js_mega_backend.Pnl.Fifo.{FifoFillInput, before, insert_fill, sort_fills}

abbrev pub Any : (FifoFillInput → Type 0) → List FifoFillInput → Type 0
Any P [] = ⊥
Any P (x ∷ xs) = P x ⊎ Any P xs

pub Any-map :
    {P Q : FifoFillInput → Type 0} (xs : List FifoFillInput)
    → ((x : FifoFillInput) → P x → Q x)
    → Any P xs
    → Any Q xs
Any-map [] f h = h
Any-map (x ∷ xs) f (inl p) = inl (f x p)
Any-map (x ∷ xs) f (inr h) = inr (Any-map xs f h)

-- One fill with P stands before another one with Q.
abbrev pub InTurn : (P Q : FifoFillInput → Type 0) → List FifoFillInput → Type 0
InTurn P Q [] = ⊥
InTurn P Q (x ∷ xs) = (P x × Any Q xs) ⊎ InTurn P Q xs

-- A fill with P and a fill with Q stand at two different places.
abbrev pub HasBoth : (P Q : FifoFillInput → Type 0) → List FifoFillInput → Type 0
HasBoth P Q [] = ⊥
HasBoth P Q (x ∷ xs) = (P x × Any Q xs) ⊎ (Q x × Any P xs) ⊎ HasBoth P Q xs

-- The first list has fills of the second one, each as often at most.
pub data Within : List FifoFillInput → List FifoFillInput → Type 0 where
  nothing : Within [] []
  kept : (x : FifoFillInput) {xs ys : List FifoFillInput} → Within xs ys → Within (x ∷ xs) (x ∷ ys)
  skipped : (x : FifoFillInput) {xs ys : List FifoFillInput} → Within xs ys → Within xs (x ∷ ys)

pub Within-nil : (ys : List FifoFillInput) → Within [] ys
Within-nil [] = nothing
Within-nil (y ∷ ys) = skipped y (Within-nil ys)

-- The next fill comes at the end, and joins or does not.
pub Within-later :
    (x : FifoFillInput) {xs ys : List FifoFillInput} → Within xs ys → Within xs (ys ++ (x ∷ []))
Within-later x nothing = skipped x nothing
Within-later x (kept y w) = kept y (Within-later x w)
Within-later x (skipped y w) = skipped y (Within-later x w)

pub Within-joined :
    (x : FifoFillInput) {xs ys : List FifoFillInput}
    → Within xs ys
    → Within (xs ++ (x ∷ [])) (ys ++ (x ∷ []))
Within-joined x nothing = kept x nothing
Within-joined x (kept y w) = kept y (Within-joined x w)
Within-joined x (skipped y w) = skipped y (Within-joined x w)

module _ (P : FifoFillInput → Type 0) where
  Any-Within : {xs ys : List FifoFillInput} → Within xs ys → Any P xs → Any P ys
  Any-Within nothing h = h
  Any-Within (kept x w) (inl p) = inl p
  Any-Within (kept x w) (inr h) = inr (Any-Within w h)
  Any-Within (skipped x w) h = inr (Any-Within w h)

module _ (P Q : FifoFillInput → Type 0) where
  pub HasBoth-Within : {xs ys : List FifoFillInput} → Within xs ys → HasBoth P Q xs → HasBoth P Q ys
  HasBoth-Within nothing h = h
  HasBoth-Within (kept x w) (inl (p, q)) = inl (p, Any-Within Q w q)
  HasBoth-Within (kept x w) (inr (inl (q, p))) = inr (inl (q, Any-Within P w p))
  HasBoth-Within (kept x w) (inr (inr h)) = inr (inr (HasBoth-Within w h))
  HasBoth-Within (skipped x w) h = inr (inr (HasBoth-Within w h))

  pub HasBoth-InTurn : (xs : List FifoFillInput) → InTurn P Q xs → HasBoth P Q xs
  HasBoth-InTurn [] h = h
  HasBoth-InTurn (x ∷ xs) (inl h) = inl h
  HasBoth-InTurn (x ∷ xs) (inr h) = inr (inr (HasBoth-InTurn xs h))

-- No fill is later than one that stands behind it.
abbrev pub IsByTime : List FifoFillInput → Type 0
IsByTime [] = Unit
IsByTime (x ∷ xs) = All (λ y. x.transaction_date ≤ y.transaction_date) xs × IsByTime xs

module _ (id_le : String → String → Bool) where
  module _ (P : FifoFillInput → Type 0) where
    Any-insert_fill :
        (x : FifoFillInput) (xs : List FifoFillInput)
        → Any P (insert_fill id_le x xs)
        → P x ⊎ Any P xs
    unfolding insert_fill
    Any-insert_fill x [] h = h
    Any-insert_fill x (y ∷ ys) h = elim (Bool-cases (before id_le x y)) [
      | inl first ↦ rw first at h
      | inr later ↦ elim (rw later at h) [
        | inl p ↦ inr (inl p)
        | inr h' ↦ elim (Any-insert_fill x ys h') [ inl p ↦ inl p | inr k ↦ inr (inr k) ]
      ]
    ]

    Any-sort_fills : (xs : List FifoFillInput) → Any P (sort_fills id_le xs) → Any P xs
    unfolding sort_fills
    Any-sort_fills [] h = h
    Any-sort_fills (x ∷ xs) h = elim (Any-insert_fill x (sort_fills id_le xs) h) [
      | inl p ↦ inl p
      | inr k ↦ inr (Any-sort_fills xs k)
    ]

    insert_fill-All :
        (x : FifoFillInput) (xs : List FifoFillInput)
        → P x
        → All P xs
        → All P (insert_fill id_le x xs)
    unfolding insert_fill
    insert_fill-All x [] p h = (p, tt)
    insert_fill-All x (y ∷ ys) p h =
        let rest = insert_fill-All x ys p h.1 in
        elim (Bool-cases (before id_le x y)) [
          | inl first ↦ rw first (p, h)
          | inr later ↦ rw later (h.0, rest)
        ]

    pub sort_fills-All : (xs : List FifoFillInput) → All P xs → All P (sort_fills id_le xs)
    unfolding sort_fills
    sort_fills-All [] h = tt
    sort_fills-All (x ∷ xs) h = insert_fill-All x _ h.0 (sort_fills-All xs h.1)

  module _ (P Q : FifoFillInput → Type 0) where
    HasBoth-insert_fill :
        (x : FifoFillInput) (xs : List FifoFillInput)
        → HasBoth P Q (insert_fill id_le x xs)
        → HasBoth P Q (x ∷ xs)
    unfolding insert_fill
    HasBoth-insert_fill x [] h = h
    HasBoth-insert_fill x (y ∷ ys) h = elim (Bool-cases (before id_le x y)) [
      | inl first ↦ rw first at h
      | inr later ↦ elim (rw later at h) [
        | inl both ↦ elim (Any-insert_fill Q x ys both.1) [
          | inl q ↦ inr (inl (q, inl both.0))
          | inr k ↦ inr (inr (inl (both.0, k)))
        ]
        | inr (inl both) ↦ elim (Any-insert_fill P x ys both.1) [
          | inl p ↦ inl (p, inl both.0)
          | inr k ↦ inr (inr (inr (inl (both.0, k))))
        ]
        | inr (inr h') ↦ elim (HasBoth-insert_fill x ys h') [
          | inl both ↦ inl (both.0, inr both.1)
          | inr (inl both) ↦ inr (inl (both.0, inr both.1))
          | inr (inr k) ↦ inr (inr (inr (inr k)))
        ]
      ]
    ]

    pub HasBoth-sort_fills :
        (xs : List FifoFillInput) → HasBoth P Q (sort_fills id_le xs) → HasBoth P Q xs
    unfolding sort_fills
    HasBoth-sort_fills [] h = h
    HasBoth-sort_fills (x ∷ xs) h = elim (HasBoth-insert_fill x (sort_fills id_le xs) h) [
      | inl both ↦ inl (both.0, Any-sort_fills Q xs both.1)
      | inr (inl both) ↦ inr (inl (both.0, Any-sort_fills P xs both.1))
      | inr (inr k) ↦ inr (inr (HasBoth-sort_fills xs k))
    ]

  before_time :
      (a b : FifoFillInput) → before id_le a b ≡ true → a.transaction_date ≤ b.transaction_date
  before_time a b h = ground arith

  after_time :
      (a b : FifoFillInput) → before id_le a b ≡ false → b.transaction_date ≤ a.transaction_date
  after_time a b h = ground arith

  All-later :
      (t u : ℕ) (xs : List FifoFillInput)
      → t ≤ u
      → All (λ y. u ≤ y.transaction_date) xs
      → All (λ y. t ≤ y.transaction_date) xs
  All-later t u [] h k = tt
  All-later t u (x ∷ xs) h k = (omega arith, All-later t u xs h k.1)

  insert_fill-IsByTime :
      (x : FifoFillInput) (xs : List FifoFillInput)
      → IsByTime xs
      → IsByTime (insert_fill id_le x xs)
  unfolding insert_fill
  insert_fill-IsByTime x [] h = (tt, tt)
  insert_fill-IsByTime x (y ∷ ys) h =
      let rest = insert_fill-IsByTime x ys h.1 in
      elim (Bool-cases (before id_le x y)) [
        | inl first ↦
            let le = before_time x y first in
            rw first ((le, All-later x.transaction_date y.transaction_date ys le h.0), h)
        | inr later ↦ rw later (
          insert_fill-All (λ z. y.transaction_date ≤ z.transaction_date) x ys (after_time x y later)
              h.0,
          rest,
        )
      ]

  pub sort_fills-IsByTime : (xs : List FifoFillInput) → IsByTime (sort_fills id_le xs)
  unfolding sort_fills
  sort_fills-IsByTime [] = tt
  sort_fills-IsByTime (x ∷ xs) = insert_fill-IsByTime x _ (sort_fills-IsByTime xs)
