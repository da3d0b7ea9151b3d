-- ===== src/Bot/Tests.antt =====
-- The measures of a trade and the feeds of the bot, bot-trade-metrics.util.ts and
-- bot-streamer-hold.util.ts, on concrete data.
use nest_js_mega_backend.Prelude.{none, some, List, [], ◌∷◌, String}
use nest_js_mega_backend.Prelude.Double.{lit}
use nest_js_mega_backend.Prelude.Frac.{Frac, frac_double, Frac-IsOrdered}
use nest_js_mega_backend.Bot.Excursion.{TapeSample, usable_samples, compute_trade_excursion}
use nest_js_mega_backend.Bot.Excursion.Laws.{IsEnvelope, compute_trade_excursion-IsEnvelope}

abbrev tape : List (TapeSample Frac)
tape =
    record { at = 1000; option_bid = some (lit 5) }
    ∷ record { at = 2000; option_bid = none }
    ∷ record { at = 3000; option_bid = some (lit 7) }
    ∷ record { at = 4000; option_bid = some (lit 4) }
    ∷ []

compute_trade_excursion-IsEnvelope_example :
    IsEnvelope 500 (usable_samples tape) (compute_trade_excursion tape (lit 5) (lit 6) 500)
compute_trade_excursion-IsEnvelope_example =
    compute_trade_excursion-IsEnvelope Frac-IsOrdered tape (lit 5) (lit 6) 500

abbrev armed : List String
armed = "u" ∷ "v" ∷ []

abbrev held : List String
held = "v" ∷ "w" ∷ []
