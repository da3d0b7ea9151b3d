-- ===== src/Bot/Strategy/Votes.antt =====
-- The signal of the strategies as an election.
use nest_js_mega_backend.Prelude.{
  ℕ, ◌≡◌, refl, ◌∙◌, ap, Bool, true, false, ◌&&◌, Option, none, some, List, [], ◌∷◌, ◌++◌, ltb, leb,
  if◌then◌else◌, length, filter, arith, Option-cases, Bool-cases, inl, inr,
}
use nest_js_mega_backend.Bot.Strategy.{SignalDirection, call, put}
use nest_js_mega_backend.Bot.Strategy.Signals.{
  BotStrategy, SignalAgreement, Label, any_label, confirming_label, agree, CombinedSignal,
  agreement_floor, agrees, Results, AnyScan, any_scan, vote_scan, first_signal, voted_signal,
  combine_signals,
}

-- The strategy asks for the direction.
abbrev pub votes_for : SignalDirection → Option SignalDirection → Bool
votes_for d none = false
votes_for d (some vote) = agrees vote d

-- The enabled strategies that ask for the direction, in their order.
abbrev pub voters : Results → SignalDirection → List BotStrategy → List BotStrategy
voters results d enabled = filter (λ s. votes_for d (results s)) enabled

abbrev or_vote : Option SignalDirection → Option SignalDirection → Option SignalDirection
or_vote none later = later
or_vote (some d) later = some d

-- The direction of the first enabled strategy that asks for one.
abbrev pub first_vote : Results → List BotStrategy → Option SignalDirection
first_vote results [] = none
first_vote results (s ∷ enabled) = or_vote (results s) (first_vote results enabled)

-- The direction with as many votes as are asked for, and with more than the other.
abbrev pub majority : (min calls puts : ℕ) → Option SignalDirection
majority min calls puts =
    if leb min calls && ltb puts calls
    then some call
    else if leb min puts && ltb calls puts
    then some put
    else none

abbrev pub elected : (min : ℕ) → Results → List BotStrategy → Option SignalDirection
elected min results enabled =
    if leb min 1
    then first_vote results enabled
    else majority min (length (voters results call enabled)) (length (voters results put enabled))

abbrev pub label_of : (min count : ℕ) → Label
label_of min count =
    if leb min 1 then any_label else if leb count min then confirming_label else agree min

-- The winner with the strategies that voted for it.
abbrev pub declared :
    (min : ℕ)
    → Results
    → List BotStrategy
    → (now_ms : ℕ) → Option SignalDirection
    → Option CombinedSignal
declared min results enabled now_ms none = none
declared min results enabled now_ms (some d) = some (record {
  at = now_ms;
  strategies = voters results d enabled;
  direction = d;
  reason = label_of min (length enabled);
})

append_assoc : (xs ys zs : List BotStrategy) → (xs ++ ys) ++ zs ≡ xs ++ (ys ++ zs)
append_assoc [] ys zs = refl
append_assoc (x ∷ xs) ys zs = ap (◌∷◌ x) (append_assoc xs ys zs)

append_nil : (xs : List BotStrategy) → xs ++ [] ≡ xs
append_nil [] = refl
append_nil (x ∷ xs) = ap (◌∷◌ x) (append_nil xs)

vote_scan_lem :
    (results : Results) (enabled : List BotStrategy) (calls puts : List BotStrategy)
    → vote_scan results enabled (record { calls = calls; puts = puts }) ≡ record {
      calls = calls ++ voters results call enabled;
      puts = puts ++ voters results put enabled;
    }
unfolding vote_scan
vote_scan_lem results [] calls puts = rw (append_nil calls, append_nil puts) refl
vote_scan_lem results (s ∷ enabled) calls puts = elim (Option-cases (results s)) [
  | inl silent ↦ rw silent (vote_scan_lem results enabled calls puts)
  | inr (SignalDirection.call, e) ↦ rw e (
      vote_scan_lem results enabled (calls ++ (s ∷ [])) puts
      ∙ ap (λ xs. record { calls = xs; puts = puts ++ voters results put enabled })
          (append_assoc calls (s ∷ []) (voters results call enabled)))
  | inr (SignalDirection.put, e) ↦ rw e (
      vote_scan_lem results enabled calls (puts ++ (s ∷ []))
      ∙ ap (λ xs. record { calls = calls ++ voters results call enabled; puts = xs })
          (append_assoc puts (s ∷ []) (voters results put enabled)))
]

any_scan_held :
    (results : Results) (enabled : List BotStrategy) (d : SignalDirection)
    (found : List BotStrategy)
    → any_scan results enabled (record { direction = some d; strategies = found })
      ≡ record { direction = some d; strategies = found ++ voters results d enabled }
unfolding any_scan
any_scan_held results [] d found = rw (append_nil found) refl
any_scan_held results (s ∷ enabled) d found = elim (Option-cases (results s)) [
  | inl silent ↦ rw silent (any_scan_held results enabled d found)
  | inr (vote, e) ↦ elim (Bool-cases (agrees vote d)) [
    | inl same ↦
        rw (e, same)
          (any_scan_held results enabled d (found ++ (s ∷ []))
            ∙ ap (λ xs. record { direction = some d; strategies = xs })
                (append_assoc found (s ∷ []) (voters results d enabled)))
    | inr other ↦ rw (e, other) (any_scan_held results enabled d found)
  ]
]

-- what the first loop finds
abbrev scan_of : Option SignalDirection → Results → List BotStrategy → AnyScan
scan_of none results enabled = record { direction = none; strategies = [] }
scan_of (some d) results enabled = record {
  direction = some d;
  strategies = voters results d enabled;
}

scan_of_silent :
    (first : Option SignalDirection) (results : Results) (s : BotStrategy)
    (enabled : List BotStrategy)
    → results s ≡ none
    → scan_of first results enabled ≡ scan_of first results (s ∷ enabled)
scan_of_silent none results s enabled silent = refl
scan_of_silent (some d) results s enabled silent = rw silent refl

scan_of_first :
    (d : SignalDirection) (results : Results) (s : BotStrategy) (enabled : List BotStrategy)
    → results s ≡ some d
    → record { direction = some d; strategies = s ∷ voters results d enabled }
      ≡ scan_of (some d) results (s ∷ enabled)
scan_of_first SignalDirection.call results s enabled e = rw e refl
scan_of_first SignalDirection.put results s enabled e = rw e refl

any_scan_lem :
    (results : Results) (enabled : List BotStrategy)
    → any_scan results enabled (record { direction = none; strategies = [] })
      ≡ scan_of (first_vote results enabled) results enabled
unfolding any_scan
any_scan_lem results [] = refl
any_scan_lem results (s ∷ enabled) = elim (Option-cases (results s)) [
  | inl silent ↦ rw silent (
      any_scan_lem results enabled
      ∙ scan_of_silent (first_vote results enabled) results s enabled silent)
  | inr (d, e) ↦
      rw e (any_scan_held results enabled d (s ∷ []) ∙ scan_of_first d results s enabled e)
]

same_of : (vote d : SignalDirection) → some vote ≡ some d → agrees vote d ≡ true
same_of SignalDirection.call SignalDirection.call e = refl
same_of SignalDirection.put SignalDirection.put e = refl
same_of SignalDirection.call SignalDirection.put e = absurd (cc e)
same_of SignalDirection.put SignalDirection.call e = absurd (cc e)

voters_of_first :
    (results : Results) (enabled : List BotStrategy) (d : SignalDirection)
    → first_vote results enabled ≡ some d
    → (s : BotStrategy) × (rest : List BotStrategy) × (voters results d enabled ≡ s ∷ rest)
voters_of_first results [] d first = absurd (cc first)
voters_of_first results (s ∷ enabled) d first = elim (Option-cases (results s)) [
  | inl silent ↦ rw silent (voters_of_first results enabled d (rw silent at first))
  | inr (vote, e) ↦ rw (e, same_of vote d (rw e at first)) (s, voters results d enabled, refl)
]

first_signal-scan_of :
    (min now_ms : ℕ) (results : Results) (enabled : List BotStrategy)
    → leb min 1 ≡ true
    → first_signal now_ms (scan_of (first_vote results enabled) results enabled)
      ≡ declared min results enabled now_ms (first_vote results enabled)
first_signal-scan_of min now_ms results enabled one =
    elim (Option-cases (first_vote results enabled)) [
      | inl nobody ↦ rw nobody refl
      | inr (d, first) ↦
          let (s, rest, e) = voters_of_first results enabled d first in rw (first, e, one) refl
    ]

voted_signal_lem :
    (min now_ms : ℕ) (results : Results) (enabled : List BotStrategy)
    → leb min 1 ≡ false
    → voted_signal now_ms min
        (length enabled)
        (record { calls = voters results call enabled; puts = voters results put enabled })
      ≡ declared min results enabled now_ms (
          majority min (length (voters results call enabled)) (length (voters results put enabled)))
voted_signal_lem min now_ms results enabled more = ground arith

-- The signal of the enabled strategies is an election. Where one vote is enough, the first strategy
-- that asks for a direction decides it; else the direction with the votes that are asked for and
-- with more of them than the other. Its strategies are those that voted for it, in their order.
pub combine_signals_lem :
    (enabled : List BotStrategy) (results : Results) (now_ms : ℕ) (agreement : SignalAgreement)
    → let min = agreement_floor agreement (length enabled) in
      combine_signals enabled results now_ms agreement
      ≡ declared min results enabled now_ms (elected min results enabled)
unfolding combine_signals
combine_signals_lem [] results now_ms agreement = ground arith
combine_signals_lem (s ∷ rest) results now_ms agreement =
    let enabled = s ∷ rest in
    let min = agreement_floor agreement (length enabled) in
    elim (Bool-cases (leb min 1)) [
      | inl one ↦ rw one (
          ap (first_signal now_ms) (any_scan_lem results enabled)
          ∙ first_signal-scan_of min now_ms results enabled one)
      | inr more ↦ rw more (
          ap (voted_signal now_ms min (length enabled)) (vote_scan_lem results enabled [] [])
          ∙ voted_signal_lem min now_ms results enabled more)
    ]
