-- ===== src/Bot/Strikes/Tests.antt =====
-- The strike selection, bot-strike-selection.util.ts, on concrete chains.
use nest_js_mega_backend.Prelude.{ℕ, ◌≡◌, refl, none, some, List, [], ◌∷◌, String}
use nest_js_mega_backend.Prelude.Double.{lit}
use nest_js_mega_backend.Prelude.Frac.{Frac, frac_double, Frac-IsOrdered}
use nest_js_mega_backend.Bot.Exit.{BotDirection}
use nest_js_mega_backend.Bot.Strikes.{
  OptionChainQuote, StrikeFilters, right_filter, mid, spread_pct, select_contract_detailed,
}
use nest_js_mega_backend.Bot.Strikes.Best.{IsAnswer, select_contract_detailed-IsAnswer}

abbrev quote : String → (bid ask delta : ℕ) → OptionChainQuote Frac
quote symbol bid ask delta = record {
  symbol = symbol;
  bid = some (frac_double.dec bid 2);
  ask = some (frac_double.dec ask 2);
  last = none;
  delta = some (frac_double.dec delta 2);
}

abbrev chain : List (OptionChainQuote Frac)
chain =
    quote "SPY   250117C00500000" 200 202 50
    ∷ quote "SPY   250117C00501000" 150 152 40
    ∷ quote "SPY   250117P00499000" 140 142 35
    ∷ []

abbrev filters : StrikeFilters Frac
filters = record {
  delta_min = frac_double.dec 30 2;
  delta_max = frac_double.dec 60 2;
  min_premium = lit 1;
  max_premium = lit 3;
  max_spread_pct = lit 5;
}

-- the call further out of the money
takes_second_call :
    (select_contract_detailed chain BotDirection.call filters).contract
    ≡ some (quote "SPY   250117C00501000" 150 152 40)
unfolding select_contract_detailed right_filter mid spread_pct
takes_second_call = refl

select_contract_detailed-IsAnswer_example :
    IsAnswer BotDirection.call filters chain
      (select_contract_detailed chain BotDirection.call filters).contract
select_contract_detailed-IsAnswer_example =
    select_contract_detailed-IsAnswer Frac-IsOrdered chain BotDirection.call filters
