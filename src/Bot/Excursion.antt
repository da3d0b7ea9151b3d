-- ===== src/Bot/Excursion.antt =====
-- src/subapps/schwab/bot/bot-trade-metrics.util.ts: the best and the worst bid of a position, and what
-- it earned. Times are numbers of milliseconds; a bid is a value of `Double`.
pub mod Laws
use nest_js_mega_backend.Prelude.{
  ℕ, ◌-◌, Bool, true, ◌&&◌, Option, none, some, List, [], ◌∷◌, if◌then◌else◌, length,
}
use nest_js_mega_backend.Prelude.Double.{Double, lt, lit}

pub record TapeSample (N : Type 0) : Type 0 where
  pub at : ℕ
  pub option_bid : Option N

-- A sample whose bid is there, finite and positive.
pub record UsableSample (N : Type 0) : Type 0 where
  pub at : ℕ
  pub option_bid : N

pub record TradeExcursion (N : Type 0) : Type 0 where
  pub mfe_premium : Option N
  pub mae_premium : Option N
  pub time_to_mfe_ms : Option ℕ
  pub capture_efficiency : Option N
  pub sample_count : ℕ

pub record TradePnl (N : Type 0) : Type 0 where
  pub gross_pnl : N
  pub fees : N
  pub net_pnl : N

module _ {N : Type 0} ⦃d : Double N⦄ where
  keep_bid : (at : ℕ) → Option N → List (UsableSample N) → List (UsableSample N)
  keep_bid at none rest = rest
  keep_bid at (some bid) rest =
      if d.is_finite bid && lt (lit 0) bid
      then record { at = at; option_bid = bid } ∷ rest
      else rest

  unfoldable pub usable_samples : List (TapeSample N) → List (UsableSample N)
  unfolding keep_bid
  usable_samples [] = []
  usable_samples (s ∷ samples) = keep_bid s.at s.option_bid (usable_samples samples)

  -- The loop over the samples, from the best and the worst so far.
  pub best_of : UsableSample N → List (UsableSample N) → UsableSample N
  best_of best [] = best
  best_of best (s ∷ samples) = best_of (if lt best.option_bid s.option_bid then s else best) samples

  pub worst_of : UsableSample N → List (UsableSample N) → UsableSample N
  worst_of worst [] = worst
  worst_of worst (s ∷ samples) =
      worst_of (if lt s.option_bid worst.option_bid then s else worst) samples

  abbrev efficiency : (best entry_price exit_price : N) → Option N
  efficiency best entry_price exit_price =
      let span = d.sub best entry_price in
      if lt (lit 0) span then some (d.div (d.sub exit_price entry_price) span) else none

  pub excursion_of :
      List (UsableSample N) → (entry_price exit_price : N) → (opened_at : ℕ) → TradeExcursion N
  unfolding best_of worst_of
  excursion_of [] entry_price exit_price opened_at = record {
    mfe_premium = none;
    mae_premium = none;
    time_to_mfe_ms = none;
    capture_efficiency = none;
    sample_count = 0;
  }
  excursion_of (first ∷ rest) entry_price exit_price opened_at =
      let best = best_of first (first ∷ rest) in
      let worst = worst_of first (first ∷ rest) in
      record {
        mfe_premium = some best.option_bid;
        mae_premium = some worst.option_bid;
        time_to_mfe_ms = some (best.at - opened_at);
        capture_efficiency = efficiency best.option_bid entry_price exit_price;
        sample_count = length (first ∷ rest);
      }

  pub compute_trade_excursion :
      List (TapeSample N) → (entry_price exit_price : N) → (opened_at : ℕ) → TradeExcursion N
  unfolding excursion_of
  compute_trade_excursion samples entry_price exit_price opened_at =
      excursion_of (usable_samples samples) entry_price exit_price opened_at

  -- `Math.round(n * 10_000) / 10_000`
  pub round4 : N → N
  round4 n = d.div (d.round (d.mul n (lit 10_000))) (lit 10_000)

  pub compute_trade_pnl : (entry_price exit_price quantity fees : N) → TradePnl N
  unfolding round4
  compute_trade_pnl entry_price exit_price quantity fees =
      let gross_pnl = d.mul (d.mul (d.sub exit_price entry_price) (lit 100)) quantity in
      record {
        gross_pnl = round4 gross_pnl;
        fees = round4 fees;
        net_pnl = round4 (d.sub gross_pnl fees);
      }
