-- ===== src/BotV2/Sizing.antt =====
-- src/subapps/schwab/bot-v2/bot-v2-sizing.util.ts: how many contracts the trainer buys.
use nest_js_mega_backend.Prelude.{
  ℕ, ◌≤◌, ◌<◌, ◌≡◌, ◌↔◌, Bool, true, not, ◌||◌, Option, none, some, min, ltb, if◌then◌else◌, arith,
}
use nest_js_mega_backend.Prelude.Double.{Double, ◌≼◌, lt, lit}
use nest_js_mega_backend.Bot.Strikes.{compute_budget, size_position}

abbrev pub trainer_max_contracts : ℕ
trainer_max_contracts = 1

pub data SizeReason : Type 0 where
  ok stop_too_tight no_stop no_budget : SizeReason

pub record SizeAtRiskInput (N : Type 0) : Type 0 where
  pub use_risk_at_stop : Bool
  pub max_risk_usd : N
  pub ask : N
  pub stop_premium : Option N
  pub settled_cash : N
  pub equity : N
  pub risk_pct : N

pub record SizeAtRiskResult : Type 0 where
  pub qty : ℕ
  pub reason : SizeReason

abbrev refuse : SizeReason → SizeAtRiskResult
refuse reason = record { qty = 0; reason = reason }

-- `{ qty, reason: qty > 0 ? 'OK' : 'NO_BUDGET' }`
abbrev sized : ℕ → SizeAtRiskResult
sized qty = record { qty = qty; reason = if ltb 0 qty then ok else no_budget }

abbrev IsSized : SizeAtRiskResult → Type 0
IsSized r = (r.qty ≤ trainer_max_contracts) × ((r.reason ≡ ok) ↔ (0 < r.qty))

sized_lem : (n : ℕ) → IsSized (sized (min n trainer_max_contracts))
sized_lem n = ground arith

module _ {N : Type 0} ⦃d : Double N⦄ where
  abbrev pub option_premium_tick : N
  option_premium_tick = d.dec 1 2

  abbrev pub risk_qty : SizeAtRiskInput N → N → ℕ
  risk_qty input stop = d.floor (d.div input.max_risk_usd (d.mul (d.sub input.ask stop) (lit 100)))

  abbrev pub cash_qty : SizeAtRiskInput N → ℕ
  cash_qty input = d.floor (d.div input.settled_cash (d.mul input.ask (lit 100)))

  size_by_stop : SizeAtRiskInput N → Option N → SizeAtRiskResult
  size_by_stop input none = refuse no_stop
  size_by_stop input (some stop) =
      if not (d.is_finite stop)
      then refuse no_stop
      else if not (d.le option_premium_tick (d.sub input.ask stop))
      then refuse stop_too_tight
      else if not (lt (lit 0) input.max_risk_usd)
      then refuse no_budget
      else sized (min (min (risk_qty input stop) (cash_qty input)) trainer_max_contracts)

  abbrev pub budget_qty : SizeAtRiskInput N → ℕ
  budget_qty input =
      size_position (compute_budget input.settled_cash input.equity input.risk_pct) input.ask

  pub size_at_risk : SizeAtRiskInput N → SizeAtRiskResult
  unfolding size_by_stop
  size_at_risk input =
      if not (lt (lit 0) input.ask) || not (lt (lit 0) input.settled_cash)
      then refuse no_budget
      else if not input.use_risk_at_stop
      then sized (min (budget_qty input) trainer_max_contracts)
      else size_by_stop input input.stop_premium

  -- The stop lies a tick or more under the price, and both the dollars at risk and the cash pay.
  abbrev pub StopCovers : SizeAtRiskInput N → Option N → ℕ → Type 0
  StopCovers input none qty = ⊥
  StopCovers input (some stop) qty =
      (option_premium_tick ≼ d.sub input.ask stop)
      × (lt (lit 0) input.max_risk_usd ≡ true)
      × (qty ≤ risk_qty input stop)
      × (qty ≤ cash_qty input)

  -- What a size that buys must satisfy: the price and the cash are positive, and then either the
  -- champion's budget pays for it, or the stop covers it.
  abbrev pub IsCovered : SizeAtRiskInput N → ℕ → Type 0
  IsCovered input qty =
      (lt (lit 0) input.ask ≡ true)
      × (lt (lit 0) input.settled_cash ≡ true)
      × (if input.use_risk_at_stop
          then StopCovers input input.stop_premium qty
          else qty ≤ budget_qty input)

  by_stop :
      (input : SizeAtRiskInput N) (stop : Option N)
      → let r = size_by_stop input stop in IsSized r × (0 < r.qty → StopCovers input stop r.qty)
  unfolding size_by_stop
  by_stop input none = ground arith
  by_stop input (some stop) = ground arith

  -- For every input at most one contract is bought, the reason is OK exactly when one is, and a
  -- contract that is bought is covered: by the champion's budget when the risk at the stop is not used,
  -- and else by the dollars at risk to a stop a tick or more under the price, and by the cash.
  pub size_at_risk-IsCovered :
      (input : SizeAtRiskInput N)
      → let r = size_at_risk input in
        (r.qty ≤ trainer_max_contracts)
        × ((r.reason ≡ ok) ↔ (0 < r.qty))
        × (0 < r.qty → IsCovered input r.qty)
  unfolding size_at_risk
  size_at_risk-IsCovered input =
      ground (arith, by_stop input input.stop_premium, sized_lem (budget_qty input))
