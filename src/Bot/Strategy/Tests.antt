-- ===== src/Bot/Strategy/Tests.antt =====
-- Runs of the rules on whole cents, and the theorems about them at concrete inputs.
use nest_js_mega_backend.Prelude.{◌≡◌, refl, ℕ, All, none, some, List, [], ◌∷◌, ◌++◌, true}
use nest_js_mega_backend.Prelude.Cents.{cents_double, Cents-IsOrdered}
use nest_js_mega_backend.BotV2.Bars.{BotCandle, flat_bar}
use nest_js_mega_backend.Bot.Strategy.{
  call, put, OrbRange, compute_orb_range, is_opening, evaluate_orb_5m, evaluate_orb_5m_crossover,
}
use nest_js_mega_backend.Bot.Strategy.Signals.{
  Results, BotStrategy, votes, vwap_pullback, orb_5m, orb_retest, ema_momentum, range_fade,
  combine_signals, agree,
}
use nest_js_mega_backend.Bot.Strategy.Votes.{combine_signals_lem, declared, elected}
use nest_js_mega_backend.Bot.Strategy.RangeLaws.{
  evaluate_orb_5m_crossover_once, compute_orb_range-All, IsInside,
}

-- Three strategies ask for a call and two for a put.
abbrev split : Results
split BotStrategy.vwap_pullback = some call
split BotStrategy.orb_5m = some put
split BotStrategy.orb_retest = some call
split BotStrategy.ema_momentum = some put
split BotStrategy.range_fade = some call
split _ = none

abbrev five : List BotStrategy
five = vwap_pullback ∷ orb_5m ∷ orb_retest ∷ ema_momentum ∷ range_fade ∷ []

-- Two votes are enough for a direction although the other has two as well.
combine_signals_run :
    combine_signals five split 9 (votes 2)
    ≡ some (record {
      at = 9;
      strategies = vwap_pullback ∷ orb_retest ∷ range_fade ∷ [];
      direction = call;
      reason = agree 2;
    })
unfolding combine_signals
combine_signals_run = refl

combine_signals_lem_example :
    combine_signals five split 9 (votes 2) ≡ declared 2 split five 9 (elected 2 split five)
combine_signals_lem_example = combine_signals_lem five split 9 (votes 2)

-- Bars of one price, a minute apart: three in the opening range, and two above it.
abbrev bars : List (BotCandle ℕ)
bars = flat_bar 77200 0 1 ∷ flat_bar 77300 60000 1 ∷ flat_bar 77100 120000 1 ∷ []

abbrev orb : OrbRange ℕ
orb = record { high = 77300; low = 77100 }

compute_orb_range-All_example :
    All (λ c. is_opening 0 c ≡ true → IsInside Cents-IsOrdered orb c) bars
unfolding compute_orb_range
compute_orb_range-All_example = compute_orb_range-All Cents-IsOrdered bars 0 orb refl

abbrev above : BotCandle ℕ
above = flat_bar 77350 300000 1

evaluate_orb_5m_crossover_once_example :
    (evaluate_orb_5m (above ∷ []) (some orb) ≡ some call)
    × (evaluate_orb_5m_crossover
          ([] ++ (flat_bar 77200 240000 1 ∷ (above ∷ (above ∷ []))))
          (some orb)
        ≡ none)
unfolding evaluate_orb_5m_crossover
evaluate_orb_5m_crossover_once_example =
    evaluate_orb_5m_crossover_once [] (flat_bar 77200 240000 1) above above (some orb) call refl
