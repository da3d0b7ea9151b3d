-- ===== src/BotV2/Bars.antt =====
-- src/subapps/schwab/bot-v2/bot-v2-bars.util.ts: prints folded into bars, and minutes cut into bars.
-- Times are numbers of milliseconds and a volume is a natural number.
pub mod Laws
use nest_js_mega_backend.Prelude.{
  ℕ, ◌+◌, ◌*◌, ◌/◌, Bool, not, ◌||◌, ◌==◌, leb, max, Option, none, some, List, [], ◌∷◌, ◌++◌,
  if◌then◌else◌,
}
use nest_js_mega_backend.Prelude.Double.{Double, max_of, min_of}

pub record BotCandle (N : Type 0) : Type 0 where
  pub open_price : N
  pub high : N
  pub low : N
  pub close : N
  pub volume : ℕ
  pub chart_time : ℕ

pub record Pushed (N : Type 0) : Type 0 where
  pub current : BotCandle N
  pub closed : Option (BotCandle N)

pub is_signal_bar_seconds : ℕ → Bool
is_signal_bar_seconds value = value == 15 || value == 60

-- `Math.floor(timestampMs / width) * width`
abbrev pub bucket_of : (timestamp_ms bar_seconds : ℕ) → ℕ
bucket_of timestamp_ms bar_seconds = timestamp_ms / (bar_seconds * 1000) * (bar_seconds * 1000)

-- `Math.floor(nowMs / 60_000) * 60_000`
abbrev pub minute_of : ℕ → ℕ
minute_of now_ms = now_ms / 60_000 * 60_000

module _ {N : Type 0} where
  -- A bar of one price.
  abbrev pub flat_bar : N → (chart_time volume : ℕ) → BotCandle N
  flat_bar price chart_time volume = record {
    open_price = price;
    high = price;
    low = price;
    close = price;
    volume = volume;
    chart_time = chart_time;
  }

  -- The four bars of a completed minute.
  abbrev pub quarters : BotCandle N → List (BotCandle N)
  quarters bar =
      flat_bar bar.open_price bar.chart_time 1
      ∷ flat_bar bar.high (bar.chart_time + 15_000) 1
      ∷ flat_bar bar.low (bar.chart_time + 30_000) 1
      ∷ flat_bar bar.close (bar.chart_time + 45_000) (max bar.volume 1)
      ∷ []

  expand_before : (current_minute : ℕ) → List (BotCandle N) → List (BotCandle N)
  expand_before current_minute [] = []
  expand_before current_minute (bar ∷ bars) =
      if leb current_minute bar.chart_time
      then expand_before current_minute bars
      else quarters bar ++ expand_before current_minute bars

  pub expand_completed_minutes : List (BotCandle N) → (now_ms : ℕ) → List (BotCandle N)
  unfolding expand_before
  expand_completed_minutes minutes now_ms = expand_before (minute_of now_ms) minutes

module _ {N : Type 0} ⦃d : Double N⦄ where
  pub push_price_bar :
      Option (BotCandle N) → (price : N) → (timestamp_ms bar_seconds : ℕ) → Pushed N
  push_price_bar none price timestamp_ms bar_seconds = record {
    current = flat_bar price (bucket_of timestamp_ms bar_seconds) 1;
    closed = none;
  }
  push_price_bar (some current) price timestamp_ms bar_seconds =
      if not (current.chart_time == bucket_of timestamp_ms bar_seconds)
      then record {
        current = flat_bar price (bucket_of timestamp_ms bar_seconds) 1;
        closed = some current;
      }
      else record {
        current = record {
          open_price = current.open_price;
          high = max_of current.high price;
          low = min_of current.low price;
          close = price;
          volume = current.volume + 1;
          chart_time = current.chart_time;
        };
        closed = none;
      }
