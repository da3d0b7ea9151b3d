-- ===== src/Bot/DayGates/Tests.antt =====
-- A live bot that has lost more than its limit of the day.
use nest_js_mega_backend.Prelude.{◌≡◌, refl, true, false, Option, none, some, []}
use nest_js_mega_backend.Prelude.Double.{lit}
use nest_js_mega_backend.Prelude.Int.{pos}
use nest_js_mega_backend.Prelude.Frac.{Frac, frac_double}
use nest_js_mega_backend.Bot.Lockout.{BotLane, BotMode}
use nest_js_mega_backend.Bot.State.{Env, Control, initial_row, failed}
use nest_js_mega_backend.Bot.DayGates.{
  GateSettings, DayReading, day_gate, check_loss_and_profit_gates,
}
use nest_js_mega_backend.Bot.DayGates.Limits.{DayLimit, IsFirst}
use nest_js_mega_backend.Bot.DayGates.Laws.{IsGated, check_loss_and_profit_gates-IsHalted}

abbrev env : Env
env = record {
  today = "2025-01-17";
  trainer_holds_feed = false;
  live_equity = pos 60_000_000;
  exit_result = failed;
  commission_per_contract = 6500;
}

abbrev live : Control
live = record {
  row = record initial_row {
    mode = BotMode.bot;
    lane = some BotLane.bot_live;
    running = true;
    live_armed = true;
  };
  events = [];
  capital = [];
}

-- Two percent of ten thousand dollars, and a profit of five hundred.
abbrev settings : GateSettings Frac
settings = record {
  use_max_loss_usd = false;
  max_loss_usd = some (lit 100);
  use_max_loss_pct = true;
  max_loss_pct = some (lit 2);
  use_profit_usd = true;
  profit_usd = some (lit 500);
  use_profit_pct_day_start = false;
  profit_pct_day_start = none;
  use_profit_pct_current = false;
  profit_pct_current = none;
}

abbrev lost : DayReading Frac
lost = record {
  today_bot_pnl = frac_double.sub (lit 0) (lit 250);
  day_start_equity = lit 10_000;
  equity = lit 9750;
}

loses : day_gate settings lost ≡ some "MAX_LOSS_PCT"
unfolding day_gate
loses = refl

check_loss_and_profit_gates-IsHalted_example :
    (first : Option DayLimit) × IsFirst settings lost first
    × IsGated env live first (check_loss_and_profit_gates env settings lost live)
check_loss_and_profit_gates-IsHalted_example =
    check_loss_and_profit_gates-IsHalted settings lost env live refl
