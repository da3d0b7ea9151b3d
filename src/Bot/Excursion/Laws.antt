-- ===== src/Bot/Excursion/Laws.antt =====
-- The excursion of a trade against the bids of its tape.
use nest_js_mega_backend.Prelude.{
  ℕ, ◌-◌, ◌≡◌, refl, Bool, true, false, none, some, List, [], ◌∷◌, arith, All, Mem, inl, inr,
  Bool-cases, if◌then◌else◌,
}
use nest_js_mega_backend.Prelude.Double.{Double, IsOrdered, ◌≼◌, lt}
use nest_js_mega_backend.Bot.Excursion.{
  TapeSample, UsableSample, TradeExcursion, usable_samples, best_of, worst_of, excursion_of,
  compute_trade_excursion,
}

module _ {N : Type 0} ⦃d : Double N⦄ where
  -- Without a usable bid everything is missing; else the two premiums are bids that were seen, every
  -- bid lies between them, and the time is that of the best bid.
  abbrev pub IsEnvelope : (opened_at : ℕ) → List (UsableSample N) → TradeExcursion N → Type 0
  IsEnvelope opened_at [] r =
      (r.mfe_premium ≡ none)
      × (r.mae_premium ≡ none)
      × (r.time_to_mfe_ms ≡ none)
      × (r.capture_efficiency ≡ none)
  IsEnvelope opened_at (first ∷ rest) r =
      (best : UsableSample N) × (worst : UsableSample N) × Mem best (first ∷ rest)
      × Mem worst (first ∷ rest)
      × (r.mfe_premium ≡ some best.option_bid)
      × (r.mae_premium ≡ some worst.option_bid)
      × (r.time_to_mfe_ms ≡ some (best.at - opened_at))
      × All (λ s. (worst.option_bid ≼ s.option_bid) × (s.option_bid ≼ best.option_bid))
          (first ∷ rest)

  module _ (laws : IsOrdered N) where
    open laws use {le_refl, le_trans, le_total}

    abbrev higher : UsableSample N → UsableSample N → UsableSample N
    higher b s = if lt b.option_bid s.option_bid then s else b

    abbrev lower : UsableSample N → UsableSample N → UsableSample N
    lower w s = if lt s.option_bid w.option_bid then s else w

    widen :
        (test : Bool) (b s : UsableSample N) (ss : List (UsableSample N)) (x : UsableSample N)
        → Mem x ((if test then s else b) ∷ ss)
        → Mem x (b ∷ s ∷ ss)
    widen true b s ss x m = inr m
    widen false b s ss x (inl e) = inl e
    widen false b s ss x (inr m) = inr (inr m)

    le-higher :
        (b s : UsableSample N)
        → (b.option_bid ≼ (higher b s).option_bid) × (s.option_bid ≼ (higher b s).option_bid)
    le-higher b s = elim (Bool-cases (d.le s.option_bid b.option_bid)) [
      | inl keep ↦ rw keep (le_refl b.option_bid, keep)
      | inr change ↦
          rw change (ground (arith, le_total b.option_bid s.option_bid), le_refl s.option_bid)
    ]

    lower-le :
        (w s : UsableSample N)
        → ((lower w s).option_bid ≼ w.option_bid) × ((lower w s).option_bid ≼ s.option_bid)
    lower-le w s = elim (Bool-cases (d.le w.option_bid s.option_bid)) [
      | inl keep ↦ rw keep (le_refl w.option_bid, keep)
      | inr change ↦
          rw change (ground (arith, le_total w.option_bid s.option_bid), le_refl s.option_bid)
    ]

    best_of_lem :
        (b : UsableSample N) (ss : List (UsableSample N))
        → Mem (best_of b ss) (b ∷ ss)
          × (b.option_bid ≼ (best_of b ss).option_bid)
          × All (λ s. s.option_bid ≼ (best_of b ss).option_bid) ss
    unfolding best_of
    best_of_lem b [] = (inl refl, le_refl b.option_bid, tt)
    best_of_lem b (s ∷ ss) =
        let (m, up, all) = best_of_lem (higher b s) ss in
        let (here, there) = le-higher b s in
        (
          widen (lt b.option_bid s.option_bid) b s ss _ m,
          le_trans _ _ _ here up,
          (le_trans _ _ _ there up, all),
        )

    worst_of_lem :
        (w : UsableSample N) (ss : List (UsableSample N))
        → Mem (worst_of w ss) (w ∷ ss)
          × ((worst_of w ss).option_bid ≼ w.option_bid)
          × All (λ s. (worst_of w ss).option_bid ≼ s.option_bid) ss
    unfolding worst_of
    worst_of_lem w [] = (inl refl, le_refl w.option_bid, tt)
    worst_of_lem w (s ∷ ss) =
        let (m, down, all) = worst_of_lem (lower w s) ss in
        let (here, there) = lower-le w s in
        (
          widen (lt s.option_bid w.option_bid) w s ss _ m,
          le_trans _ _ _ down here,
          (le_trans _ _ _ down there, all),
        )

    both-All :
        (P Q : UsableSample N → Type 0) (ss : List (UsableSample N))
        → All P ss
        → All Q ss
        → All (λ s. P s × Q s) ss
    both-All P Q [] p q = tt
    both-All P Q (s ∷ ss) p q = ((p.0, q.0), both-All P Q ss p.1 q.1)

    -- a member of the list with its first element twice
    once :
        (x first : UsableSample N) (rest : List (UsableSample N))
        → Mem x (first ∷ first ∷ rest)
        → Mem x (first ∷ rest)
    once x first rest (inl e) = inl e
    once x first rest (inr m) = m

    excursion_of-IsEnvelope :
        (ss : List (UsableSample N)) (entry exit : N) (opened_at : ℕ)
        → IsEnvelope opened_at ss (excursion_of ss entry exit opened_at)
    unfolding excursion_of
    excursion_of-IsEnvelope [] entry exit opened_at = (refl, refl, refl, refl)
    excursion_of-IsEnvelope (first ∷ rest) entry exit opened_at =
        let (m, up, all) = best_of_lem first (first ∷ rest) in
        let (n, down, all') = worst_of_lem first (first ∷ rest) in
        (
          best_of first (first ∷ rest),
          worst_of first (first ∷ rest),
          once _ first rest m,
          once _ first rest n,
          refl,
          refl,
          refl,
          both-All _ _ (first ∷ rest) all' all,
        )

    -- For every tape: without a usable bid all is missing; else the two premiums are bids of the tape,
    -- every usable bid lies between them, and the time to the best is that of a sample with this bid.
    pub compute_trade_excursion-IsEnvelope :
        (samples : List (TapeSample N)) (entry exit : N) (opened_at : ℕ)
        → IsEnvelope opened_at
            (usable_samples samples)
            (compute_trade_excursion samples entry exit opened_at)
    unfolding compute_trade_excursion
    compute_trade_excursion-IsEnvelope samples entry exit opened_at =
        excursion_of-IsEnvelope (usable_samples samples) entry exit opened_at
