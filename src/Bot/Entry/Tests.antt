-- ===== src/Bot/Entry/Tests.antt =====
-- An entry of the engine on exact fractions.
use nest_js_mega_backend.Prelude.{ℕ, ◌≡◌, refl, true, false, none, some, List, [], ◌∷◌}
use nest_js_mega_backend.Prelude.Double.{lit}
use nest_js_mega_backend.Prelude.Frac.{Frac, frac_double}
use nest_js_mega_backend.Bot.Lockout.{BotLane, BotMode}
use nest_js_mega_backend.Bot.Strikes.{
  select_contract_detailed, right_filter, mid, spread_pct, size_position, compute_budget,
}
use nest_js_mega_backend.BotV2.Bars.{BotCandle, flat_bar}
use nest_js_mega_backend.Bot.Strategy.Signals.{orb_5m, combine_signals}
use nest_js_mega_backend.Bot.Strategy.{evaluate_orb_5m, compute_orb_range}
use nest_js_mega_backend.Bot.Strategy.Rules.{evaluate_enabled, build_strategy_context}
use nest_js_mega_backend.Bot.Entry.{
  BotCombineMode, EntryEnv, EntrySettings, EntryRow, signal_event, entry_submit, entry_fill,
  gate_skip, cooldown, evaluate_entry_signal,
}
use nest_js_mega_backend.Bot.Entry.Guards.{IsGuarded, evaluate_entry_signal-IsGuarded}

abbrev dollars : ℕ → Frac
dollars n = lit n

abbrev settings : EntrySettings Frac
settings = record {
  cooldown_mins = 5;
  atr_period = 14;
  strategies_enabled = orb_5m ∷ [];
  min_strategy_agreement = 1;
  combine_mode = BotCombineMode.any_mode;
  calls_enabled = true;
  puts_enabled = false;
  can_buy_calls = true;
  can_buy_puts = true;
  filters = record {
    delta_min = frac_double.dec 30 2;
    delta_max = frac_double.dec 60 2;
    min_premium = lit 1;
    max_premium = lit 3;
    max_spread_pct = lit 5;
  };
  risk_pct = lit 10;
  lock = record {
    loss_cut_pct = none;
    protect_arm_pct = none;
    protect_floor_pct = none;
    giveback_pct = none;
    tight_from_pct = none;
    tight_giveback_pct = none;
  };
}

abbrev bars : List (BotCandle Frac)
bars =
    flat_bar (dollars 500) 0 1
    ∷ flat_bar (dollars 501) 60000 1
    ∷ flat_bar (dollars 499) 120000 1
    ∷ flat_bar (dollars 500) 180000 1
    ∷ flat_bar (dollars 500) 240000 1
    ∷ flat_bar (dollars 502) 300000 1
    ∷ []

-- A close above the opening range, and one contract that suits.
abbrev env : EntryEnv Frac
env = record {
  now_ms = 400000;
  within_window = true;
  min_equity_ok = true;
  equity = dollars 10000;
  settled_cash = dollars 5000;
  stream_connected = true;
  last_frame_at = some 399000;
  candles = bars;
  session_start_ms = 0;
  chart_time = some 300000;
  has_bot_working_order = false;
  chain =
      record {
        symbol = "SPY   250117C00501000";
        bid = some (frac_double.dec 150 2);
        ask = some (frac_double.dec 152 2);
        last = none;
        delta = some (frac_double.dec 40 2);
      }
      ∷ [];
  fill_price = some (frac_double.dec 153 2);
  commission_per_contract = frac_double.dec 65 2;
}

abbrev row : EntryRow Frac
row = record {
  mode = BotMode.bot;
  lane = some BotLane.bot_paper;
  running = true;
  lockout = false;
  open_position = none;
  last_trade_at = none;
  last_signal = none;
  paper_settled_cash = dollars 5000;
}

-- A budget of 1,000 dollars buys six contracts at an ask of 152.
enters :
    (evaluate_entry_signal env settings row).events
    ≡ signal_event
      ∷ entry_submit "SPY   250117C00501000" 6
      ∷ entry_fill "SPY   250117C00501000" 6
      ∷ []
unfolding evaluate_entry_signal combine_signals evaluate_enabled evaluate_orb_5m
    build_strategy_context compute_orb_range select_contract_detailed right_filter mid spread_pct
    size_position compute_budget
enters = refl

waits :
    (evaluate_entry_signal env settings (record row { last_trade_at = some 200000 })).events
    ≡ gate_skip cooldown ∷ []
unfolding evaluate_entry_signal
waits = refl

evaluate_entry_signal-IsGuarded_example :
    IsGuarded env settings row (evaluate_entry_signal env settings row)
evaluate_entry_signal-IsGuarded_example = evaluate_entry_signal-IsGuarded env settings row
