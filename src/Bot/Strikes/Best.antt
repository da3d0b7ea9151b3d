-- ===== src/Bot/Strikes/Best.antt =====
-- The contract that `selectContractDetailed` returns, against what the filters ask.
use nest_js_mega_backend.Prelude.{
  ◌≡◌, refl, ap, sym, Bool, true, false, not, ◌&&◌, ◌||◌, Option, none, some, List, [], ◌∷◌, ◌++◌,
  arith, All, All-map, All-filter, Mem, Mem-filter, filter, head?, inl, inr, Bool-cases, is_some,
  if◌then◌else◌,
}
use nest_js_mega_backend.Prelude.Double.{Double, IsOrdered, ◌≼◌}
use nest_js_mega_backend.Bot.Exit.{BotDirection}
use nest_js_mega_backend.Bot.Strikes.{
  OptionChainQuote, StrikeFilters, Scan, right_filter, mid, spread_pct, abs_delta, misses, over,
  judge, is_candidate, look_at, scan, sort_key, insert_candidate, sort_candidates, no_scan,
  band_centre_of, select_contract_detailed,
}

module _ {N : Type 0} ⦃d : Double N⦄ where
  -- A value that is there and lies between the two bounds, and one that is at most a bound.
  abbrev pub in_band : (lo hi : N) → Option N → Bool
  in_band lo hi none = false
  in_band lo hi (some value) = d.le lo value && d.le value hi

  abbrev pub is_within : (hi : N) → Option N → Bool
  is_within hi none = false
  is_within hi (some value) = d.le value hi

  -- What the filters ask of a quote.
  abbrev pub passes : StrikeFilters N → OptionChainQuote N → Bool
  passes filters q =
      in_band filters.delta_min filters.delta_max (abs_delta q)
      && in_band filters.min_premium filters.max_premium (mid q.bid q.ask q.last)
      && is_within filters.max_spread_pct (spread_pct q.bid q.ask)

  verdict_passes :
      (lo hi lo' hi' top : N) (a b c : Option N)
      → (not (not (is_some a) || not (is_some b) || not (is_some c))
          && not (misses lo hi a)
          && not (misses lo' hi' b)
          && not (over top c))
        ≡ (in_band lo hi a && in_band lo' hi' b && is_within top c)
  unfolding misses over
  verdict_passes lo hi lo' hi' top none b c = refl
  verdict_passes lo hi lo' hi' top (some a) none c = ground arith
  verdict_passes lo hi lo' hi' top (some a) (some b) none = ground arith
  verdict_passes lo hi lo' hi' top (some a) (some b) (some c) = ground arith

  candidate_passes :
      (filters : StrikeFilters N) (q : OptionChainQuote N)
      → is_candidate (judge filters q) ≡ passes filters q
  unfolding judge
  candidate_passes filters q =
      verdict_passes filters.delta_min filters.delta_max filters.min_premium filters.max_premium
        filters.max_spread_pct (abs_delta q) (mid q.bid q.ask q.last) (spread_pct q.bid q.ask)

  looked_at :
      (filters : StrikeFilters N) (centre : N) (q : OptionChainQuote N) (s : Scan N)
      → (look_at filters centre q s).candidates
        ≡ (if passes filters q then s.candidates ++ (q ∷ []) else s.candidates)
  unfolding look_at
  looked_at filters centre q s = ground (arith, candidate_passes filters q)

  append_one :
      (xs ys : List (OptionChainQuote N)) (q : OptionChainQuote N)
      → (xs ++ (q ∷ [])) ++ ys ≡ xs ++ (q ∷ ys)
  append_one [] ys q = refl
  append_one (x ∷ xs) ys q = ap (◌∷◌ x) (append_one xs ys q)

  append_nil : (xs : List (OptionChainQuote N)) → xs ++ [] ≡ xs
  append_nil [] = refl
  append_nil (x ∷ xs) = ap (◌∷◌ x) (append_nil xs)

  scan_candidates :
      (filters : StrikeFilters N) (centre : N) (qs : List (OptionChainQuote N)) (s : Scan N)
      → (scan filters centre qs s).candidates ≡ s.candidates ++ filter (passes filters) qs
  unfolding scan
  scan_candidates filters centre [] s = sym (append_nil s.candidates)
  scan_candidates filters centre (q ∷ qs) s =
      let ih = scan_candidates filters centre qs (look_at filters centre q s) in
      let now = looked_at filters centre q s in
      elim (Bool-cases (passes filters q)) [
        | inl good ↦ rw (ih, now, good) (append_one s.candidates (filter (passes filters) qs) q)
        | inr bad ↦ rw (ih, now, bad)
      ]

  -- Nothing of nothing, or one of the quotes whose key is under every other.
  abbrev pub IsFirst : List (OptionChainQuote N) → Option (OptionChainQuote N) → Type 0
  IsFirst qs none = qs ≡ []
  IsFirst qs (some q) = Mem q qs × All (λ c. sort_key q ≼ sort_key c) qs

  abbrev pick : OptionChainQuote N → Option (OptionChainQuote N) → Option (OptionChainQuote N)
  pick q none = some q
  pick q (some c) = if d.le (sort_key q) (sort_key c) then some q else some c

  head-insert_candidate :
      (q : OptionChainQuote N) (cs : List (OptionChainQuote N))
      → head? (insert_candidate q cs) ≡ pick q (head? cs)
  unfolding insert_candidate
  head-insert_candidate q [] = refl
  head-insert_candidate q (c ∷ cs) = ground arith

  abbrev pub suits : BotDirection → StrikeFilters N → OptionChainQuote N → Bool
  suits direction filters q = right_filter direction q.symbol && passes filters q

  -- The answer for a chain: no quote suits, or one that suits, and none of those that suit has a
  -- smaller absolute delta.
  abbrev pub IsAnswer :
      BotDirection
      → StrikeFilters N
      → List (OptionChainQuote N)
      → Option (OptionChainQuote N)
      → Type 0
  IsAnswer direction filters chain none = All (λ c. suits direction filters c ≡ false) chain
  IsAnswer direction filters chain (some q) =
      Mem q chain
      × (suits direction filters q ≡ true)
      × All (λ c. suits direction filters c ≡ true → sort_key q ≼ sort_key c) chain

  filter_twice :
      (p t : OptionChainQuote N → Bool) (qs : List (OptionChainQuote N))
      → filter t (filter p qs) ≡ filter (λ q. p q && t q) qs
  filter_twice p t [] = refl
  filter_twice p t (q ∷ qs) = ground (arith, filter_twice p t qs)

  none_suits :
      (t : OptionChainQuote N → Bool) (qs : List (OptionChainQuote N))
      → filter t qs ≡ []
      → All (λ c. t c ≡ false) qs
  none_suits t [] e = tt
  none_suits t (q ∷ qs) e = elim (Bool-cases (t q)) [
    | inl good ↦ absurd (ground arith)
    | inr bad ↦ (bad, none_suits t qs (ground arith))
  ]

  answer :
      (direction : BotDirection) (filters : StrikeFilters N) (chain : List (OptionChainQuote N))
      (o : Option (OptionChainQuote N))
      → IsFirst (filter (suits direction filters) chain) o
      → IsAnswer direction filters chain o
  answer direction filters chain none e = none_suits (suits direction filters) chain e
  answer direction filters chain (some q) (m, least) =
      let (at, good) = Mem-filter (suits direction filters) q chain m in
      (at, good, All-filter (λ c. sort_key q ≼ sort_key c) (suits direction filters) chain least)

  module _ (laws : IsOrdered N) where
    open laws use {le_refl, le_trans, le_total}

    pick-IsFirst :
        (q : OptionChainQuote N) (qs : List (OptionChainQuote N)) (o : Option (OptionChainQuote N))
        → IsFirst qs o
        → IsFirst (q ∷ qs) (pick q o)
    pick-IsFirst q qs none e = rw e (inl refl, (le_refl (sort_key q), tt))
    pick-IsFirst q qs (some c) (m, least) = elim (Bool-cases (d.le (sort_key q) (sort_key c))) [
      | inl under ↦
          rw under
            (inl refl, (le_refl (sort_key q), All-map qs (λ x h. le_trans _ _ _ under h) least))
      | inr over ↦ rw over (inr m, (ground (arith, le_total (sort_key q) (sort_key c)), least))
    ]

    sort_candidates-IsFirst :
        (qs : List (OptionChainQuote N)) → IsFirst qs (head? (sort_candidates qs))
    unfolding sort_candidates
    sort_candidates-IsFirst [] = refl
    sort_candidates-IsFirst (q ∷ qs) =
        rw (head-insert_candidate q (sort_candidates qs))
          (pick-IsFirst q qs _ (sort_candidates-IsFirst qs))

    -- For every chain the selection returns a quote of the right side that passes all filters and
    -- whose absolute delta none of the others that do undercuts; it returns nothing only when no
    -- quote of that side passes.
    pub select_contract_detailed-IsAnswer :
        (chain : List (OptionChainQuote N)) (direction : BotDirection) (filters : StrikeFilters N)
        → IsAnswer direction filters chain
            (select_contract_detailed chain direction filters).contract
    unfolding select_contract_detailed
    select_contract_detailed-IsAnswer chain direction filters =
        let right_side = filter (λ q. right_filter direction q.symbol) chain in
        let found = scan_candidates filters (band_centre_of filters) right_side no_scan in
        let two = filter_twice (λ q. right_filter direction q.symbol) (passes filters) chain in
        answer direction filters chain _
          (rw (found, two) (sort_candidates-IsFirst (filter (suits direction filters) chain)))
