-- ===== src/Bot/Strikes.antt =====
-- src/subapps/schwab/bot/bot-strike-selection.util.ts: the contract that an entry buys, and how many.
-- A field of a quote that is null or undefined is `none`. Prices are values of `Double`.
pub mod Best
mod Tests
use nest_js_mega_backend.Prelude.{
  ℕ, ◌+◌, ◌*◌, Bool, true, false, not, ◌&&◌, ◌||◌, ◌==◌, Option, none, some, List, [], ◌∷◌, ◌++◌,
  String, if◌then◌else◌, or_else, is_some, length, filter, head?,
}
use nest_js_mega_backend.Prelude.Text.{codes, matches_anywhere, osi_pattern, strip_spaces}
use nest_js_mega_backend.Prelude.Double.{Double, lt, min_of, lit}
use nest_js_mega_backend.Bot.Exit.{BotDirection}

pub record StrikeFilters (N : Type 0) : Type 0 where
  pub delta_min : N
  pub delta_max : N
  pub min_premium : N
  pub max_premium : N
  pub max_spread_pct : N

-- Of `OptionChainQuote`, the fields that the selection reads.
pub record OptionChainQuote (N : Type 0) : Type 0 where
  pub symbol : String
  pub bid : Option N
  pub ask : Option N
  pub last : Option N
  pub delta : Option N

pub record Rejects : Type 0 where
  pub delta : ℕ
  pub premium : ℕ
  pub spread : ℕ
  pub no_quote : ℕ

pub record NearestMiss (N : Type 0) : Type 0 where
  pub symbol : String
  pub delta : Option N
  pub mid : Option N
  pub spread_pct : Option N

pub record StrikeSelectionDiagnostics (N : Type 0) : Type 0 where
  pub chain_size : ℕ
  pub right_matches : ℕ
  pub rejects : Rejects
  pub best : Option (NearestMiss N)

pub record StrikeSelectionResult (N : Type 0) : Type 0 where
  pub contract : Option (OptionChainQuote N)
  pub diagnostics : StrikeSelectionDiagnostics N

-- What one turn of the loop finds out about a quote.
pub record Verdict (N : Type 0) : Type 0 where
  pub abs_delta : Option N
  pub mid : Option N
  pub spread_pct : Option N
  pub no_quote : Bool
  pub delta_miss : Bool
  pub premium_miss : Bool
  pub spread_miss : Bool

-- The variables of the loop; `none` is the score `Infinity`.
pub record Scan (N : Type 0) : Type 0 where
  pub candidates : List (OptionChainQuote N)
  pub rejects : Rejects
  pub best : Option (NearestMiss N)
  pub best_score : Option N

abbrev has_right : (letter : ℕ) → String → Bool
has_right letter symbol =
    matches_anywhere (osi_pattern (λ c. c == letter)) (strip_spaces (codes symbol))

-- `direction === 'CALL' ? isCall : isPut`
unfoldable pub right_filter : BotDirection → String → Bool
right_filter BotDirection.call symbol = has_right b'C' symbol
right_filter BotDirection.put symbol = has_right b'P' symbol

-- `Number(test)`, added to a count
abbrev bump : Bool → ℕ → ℕ
bump test n = if test then n + 1 else n

module _ {N : Type 0} ⦃d : Double N⦄ where
  unfoldable pub compute_budget : (settled_cash equity risk_pct : N) → N
  compute_budget settled_cash equity risk_pct =
      min_of settled_cash (d.mul equity (d.div risk_pct (lit 100)))

  unfoldable pub size_position : (budget contract_premium : N) → ℕ
  size_position budget contract_premium =
      if d.le contract_premium (lit 0) || d.le budget (lit 0)
      then 0
      else d.floor (d.div budget (d.mul contract_premium (lit 100)))

  -- `a ?? b` of two values that may be missing
  abbrev first_of : Option N → Option N → Option N
  first_of none b = b
  first_of (some a) b = some a

  -- The mid price, `spreadPct` and the absolute delta.
  unfoldable pub mid : (bid ask last : Option N) → Option N
  mid (some bid) (some ask) last = some (d.div (d.add bid ask) (lit 2))
  mid none ask last = first_of last ask
  mid (some bid) none last = first_of last (some bid)

  unfoldable pub spread_pct : (bid ask : Option N) → Option N
  spread_pct none ask = none
  spread_pct (some bid) none = none
  spread_pct (some bid) (some ask) =
      if d.le ask (lit 0) then none else some (d.mul (d.div (d.sub ask bid) ask) (lit 100))

  -- `Math.abs`
  abbrev pub abs_of : N → N
  abs_of a = if d.le (lit 0) a then a else d.sub (lit 0) a

  abbrev pub abs_delta : OptionChainQuote N → Option N
  abs_delta q = elim q.delta [ none ↦ none | some delta ↦ some (abs_of delta) ]

  -- `value != null && (value < lo || value > hi)`
  pub misses : (lo hi : N) → Option N → Bool
  misses lo hi none = false
  misses lo hi (some value) = lt value lo || lt hi value

  pub over : (hi : N) → Option N → Bool
  over hi none = false
  over hi (some value) = lt hi value

  pub judge : StrikeFilters N → OptionChainQuote N → Verdict N
  unfolding misses over
  judge filters q =
      let m = mid q.bid q.ask q.last in
      let sp = spread_pct q.bid q.ask in
      record {
        abs_delta = abs_delta q;
        mid = m;
        spread_pct = sp;
        no_quote = not (is_some (abs_delta q)) || not (is_some m) || not (is_some sp);
        delta_miss = misses filters.delta_min filters.delta_max (abs_delta q);
        premium_miss = misses filters.min_premium filters.max_premium m;
        spread_miss = over filters.max_spread_pct sp;
      }

  abbrev pub is_candidate : Verdict N → Bool
  is_candidate v = not v.no_quote && not v.delta_miss && not v.premium_miss && not v.spread_miss

  abbrev failures : Verdict N → ℕ
  failures v = bump v.no_quote (bump v.delta_miss (bump v.premium_miss (bump v.spread_miss 0)))

  -- `failures * 10 + distance`
  score : (band_centre : N) → Verdict N → N
  score band_centre v =
      d.add (lit (10 * failures v))
        (elim v.abs_delta [ none ↦ lit 1 | some delta ↦ abs_of (d.sub delta band_centre) ])

  abbrev beats : N → Option N → Bool
  beats a none = true
  beats a (some b) = lt a b

  abbrev count_rejects : Verdict N → Rejects → Rejects
  count_rejects v r = record {
    delta = bump v.delta_miss r.delta;
    premium = bump v.premium_miss r.premium;
    spread = bump v.spread_miss r.spread;
    no_quote = bump v.no_quote r.no_quote;
  }

  -- One turn of `for (const q of rightSide)`.
  pub look_at : StrikeFilters N → (band_centre : N) → OptionChainQuote N → Scan N → Scan N
  unfolding score judge
  look_at filters band_centre q s =
      let v = judge filters q in
      let s' = record s { rejects = count_rejects v s.rejects } in
      let miss : NearestMiss N = record {
        symbol = q.symbol;
        delta = q.delta;
        mid = v.mid;
        spread_pct = v.spread_pct;
      } in
      if is_candidate v
      then record s' { candidates = s.candidates ++ (q ∷ []) }
      else if beats (score band_centre v) s.best_score
      then record s' { best = some miss; best_score = some (score band_centre v) }
      else s'

  pub scan : StrikeFilters N → (band_centre : N) → List (OptionChainQuote N) → Scan N → Scan N
  unfolding look_at
  scan filters band_centre [] s = s
  scan filters band_centre (q ∷ qs) s =
      scan filters band_centre qs (look_at filters band_centre q s)

  -- `Math.abs(q.delta ?? 1)`, by which the candidates are sorted
  abbrev pub sort_key : OptionChainQuote N → N
  sort_key q = abs_of (or_else q.delta (lit 1))

  pub insert_candidate : OptionChainQuote N → List (OptionChainQuote N) → List (OptionChainQuote N)
  insert_candidate q [] = q ∷ []
  insert_candidate q (c ∷ cs) =
      if d.le (sort_key q) (sort_key c) then q ∷ c ∷ cs else c ∷ insert_candidate q cs

  pub sort_candidates : List (OptionChainQuote N) → List (OptionChainQuote N)
  unfolding insert_candidate
  sort_candidates [] = []
  sort_candidates (q ∷ qs) = insert_candidate q (sort_candidates qs)

  abbrev pub no_scan : Scan N
  no_scan = record {
    candidates = [];
    rejects = record { delta = 0; premium = 0; spread = 0; no_quote = 0 };
    best = none;
    best_score = none;
  }

  abbrev pub band_centre_of : StrikeFilters N → N
  band_centre_of filters = d.div (d.add filters.delta_min filters.delta_max) (lit 2)

  unfoldable pub select_contract_detailed :
      List (OptionChainQuote N) → BotDirection → StrikeFilters N → StrikeSelectionResult N
  unfolding scan sort_candidates
  select_contract_detailed chain direction filters =
      let right_side = filter (λ q. right_filter direction q.symbol) chain in
      let found = scan filters (band_centre_of filters) right_side no_scan in
      record {
        contract = head? (sort_candidates found.candidates);
        diagnostics = record {
          chain_size = length chain;
          right_matches = length right_side;
          rejects = found.rejects;
          best = found.best;
        };
      }

  pub select_contract :
      List (OptionChainQuote N) → BotDirection → StrikeFilters N → Option (OptionChainQuote N)
  unfolding select_contract_detailed
  select_contract chain direction filters =
      (select_contract_detailed chain direction filters).contract
