-- ===== src/Bot/Strategy/Signals.antt =====
-- `combineSignals`: how the votes of the enabled strategies make one signal. Of its reason the label
-- is kept; the text also joins the names of the strategies and the direction.
use nest_js_mega_backend.Prelude.{
  ℕ, suc, Bool, true, false, not, ◌&&◌, Option, none, some, List, [], ◌∷◌, ◌++◌, ltb, leb, max,
  if◌then◌else◌, length,
}
use nest_js_mega_backend.Bot.Strategy.{SignalDirection, call, put}

pub data BotStrategy : Type 0 where
  vwap_pullback orb_5m orb_5m_cross vwap_rolling_100 vwap_reversion orb_retest ema_momentum
        range_fade :
      BotStrategy

-- A number of votes, as `Math.floor` leaves it.
pub data SignalAgreement : Type 0 where
  votes : ℕ → SignalAgreement
  confirming any : SignalAgreement

pub data Label : Type 0 where
  any_label confirming_label : Label
  agree : ℕ → Label

pub record CombinedSignal : Type 0 where
  pub at : ℕ
  pub strategies : List BotStrategy
  pub direction : SignalDirection
  pub reason : Label

abbrev pub agreement_floor : SignalAgreement → (enabled_count : ℕ) → ℕ
agreement_floor SignalAgreement.confirming count = max count 1
agreement_floor SignalAgreement.any count = 1
agreement_floor (SignalAgreement.votes n) count = max 1 n

abbrev pub agrees : SignalDirection → SignalDirection → Bool
agrees SignalDirection.call SignalDirection.call = true
agrees SignalDirection.put SignalDirection.put = true
agrees _ _ = false

-- The results of the strategies, `none` for null and for a missing entry.
abbrev pub Results : Type 0
Results = BotStrategy → Option SignalDirection

-- `direction` and `strategies` of the first loop
pub record AnyScan : Type 0 where
  pub direction : Option SignalDirection
  pub strategies : List BotStrategy

abbrev pub any_step : BotStrategy → Option SignalDirection → AnyScan → AnyScan
any_step s none scan = scan
any_step s (some d) scan = elim scan.direction [
  | none ↦ record { direction = some d; strategies = scan.strategies ++ (s ∷ []) }
  | some held ↦
      if agrees d held
      then record { direction = some held; strategies = scan.strategies ++ (s ∷ []) }
      else scan
]

unfoldable pub any_scan : Results → List BotStrategy → AnyScan → AnyScan
any_scan results [] scan = scan
any_scan results (s ∷ enabled) scan = any_scan results enabled (any_step s (results s) scan)

-- `calls` and `puts` of the second loop
pub record Ballot : Type 0 where
  pub calls : List BotStrategy
  pub puts : List BotStrategy

abbrev pub vote_step : BotStrategy → Option SignalDirection → Ballot → Ballot
vote_step s none ballot = ballot
vote_step s (some SignalDirection.call) ballot = record ballot { calls = ballot.calls ++ (s ∷ []) }
vote_step s (some SignalDirection.put) ballot = record ballot { puts = ballot.puts ++ (s ∷ []) }

unfoldable pub vote_scan : Results → List BotStrategy → Ballot → Ballot
vote_scan results [] ballot = ballot
vote_scan results (s ∷ enabled) ballot = vote_scan results enabled (vote_step s (results s) ballot)

abbrev pub first_signal : (now_ms : ℕ) → AnyScan → Option CombinedSignal
first_signal now_ms scan = elim scan.direction [
  | none ↦ none
  | some d ↦ elim scan.strategies [
    | [] ↦ none
    | s ∷ rest ↦
        some (record { at = now_ms; strategies = s ∷ rest; direction = d; reason = any_label })
  ]
]

abbrev pub voted_signal : (now_ms min enabled_count : ℕ) → Ballot → Option CombinedSignal
voted_signal now_ms min count ballot =
    let calls = length ballot.calls in
    let puts = length ballot.puts in
    let call_wins = leb min calls && ltb puts calls in
    let put_wins = leb min puts && ltb calls puts in
    let label = if leb count min then confirming_label else agree min in
    if not call_wins && not put_wins
    then none
    else if call_wins
    then some (record { at = now_ms; strategies = ballot.calls; direction = call; reason = label })
    else some (record { at = now_ms; strategies = ballot.puts; direction = put; reason = label })

unfoldable pub combine_signals :
    (enabled : List BotStrategy) → Results → (now_ms : ℕ) → SignalAgreement → Option CombinedSignal
unfolding any_scan vote_scan
combine_signals [] results now_ms agreement = none
combine_signals (s ∷ rest) results now_ms agreement =
    let min = agreement_floor agreement (suc (length rest)) in
    if leb min 1
    then first_signal now_ms
        (any_scan results (s ∷ rest) (record { direction = none; strategies = [] }))
    else voted_signal now_ms min (suc (length rest))
        (vote_scan results (s ∷ rest) (record { calls = []; puts = [] }))
