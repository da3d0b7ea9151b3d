-- ===== src/Bot/Strategy/Rules.antt =====
-- src/subapps/schwab/bot/strategies: the registry of the rules, what each needs, and how each is
-- evaluated on the bars and the indicators.
use nest_js_mega_backend.Prelude.{
  ℕ, ◌-◌, ◌≡◌, refl, Bool, true, false, ◌&&◌, ◌||◌, Option, none, some, List, [], ◌∷◌, ltb, leb,
  ◌==◌, if◌then◌else◌, length, drop, filter, head?,
}
use nest_js_mega_backend.Prelude.Double.{Double, max_of, lt, lit}
use nest_js_mega_backend.BotV2.Bars.{BotCandle}
use nest_js_mega_backend.Bot.Strategy.{
  SignalDirection, OrbRange, call, put, last_two, compute_vwap, compute_atr, compute_ema,
  compute_orb_range, evaluate_orb_5m, evaluate_orb_5m_crossover, evaluate_vwap_pullback,
}
use nest_js_mega_backend.Bot.Strategy.Signals.{
  BotStrategy, Results, vwap_pullback, orb_5m, orb_5m_cross, vwap_rolling_100, vwap_reversion,
  orb_retest, ema_momentum, range_fade,
}

pub data StrategyNeed : Type 0 where
  vwap_need atr_need orb_need ema_need : StrategyNeed

pub record StrategyContext (N : Type 0) : Type 0 where
  pub candles : List (BotCandle N)
  pub session_start_ms : ℕ
  pub vwap : Option N
  pub atr : Option N
  pub orb : Option (OrbRange N)
  pub ema_fast : Option N
  pub ema_slow : Option N

abbrev pub ema_fast_period : ℕ
ema_fast_period = 9

abbrev pub ema_slow_period : ℕ
ema_slow_period = 21

abbrev pub rolling_vwap_bars : ℕ
rolling_vwap_bars = 100

abbrev need_number : StrategyNeed → ℕ
need_number StrategyNeed.vwap_need = 0
need_number StrategyNeed.atr_need = 1
need_number StrategyNeed.orb_need = 2
need_number StrategyNeed.ema_need = 3

-- `needs.includes(need)`
abbrev pub includes_need : List StrategyNeed → StrategyNeed → Bool
includes_need [] need = false
includes_need (n ∷ needs) need = need_number n == need_number need || includes_need needs need

abbrev strategy_number : BotStrategy → ℕ
strategy_number BotStrategy.vwap_pullback = 0
strategy_number BotStrategy.orb_5m = 1
strategy_number BotStrategy.orb_5m_cross = 2
strategy_number BotStrategy.vwap_rolling_100 = 3
strategy_number BotStrategy.vwap_reversion = 4
strategy_number BotStrategy.orb_retest = 5
strategy_number BotStrategy.ema_momentum = 6
strategy_number BotStrategy.range_fade = 7

-- The field `needs` of each entry of the registry.
abbrev pub needs_of : BotStrategy → List StrategyNeed
needs_of BotStrategy.vwap_pullback = StrategyNeed.vwap_need ∷ StrategyNeed.atr_need ∷ []
needs_of BotStrategy.orb_5m = StrategyNeed.orb_need ∷ []
needs_of BotStrategy.orb_5m_cross = StrategyNeed.orb_need ∷ []
needs_of BotStrategy.vwap_rolling_100 = StrategyNeed.atr_need ∷ []
needs_of BotStrategy.vwap_reversion = StrategyNeed.vwap_need ∷ StrategyNeed.atr_need ∷ []
needs_of BotStrategy.orb_retest = StrategyNeed.orb_need ∷ []
needs_of BotStrategy.ema_momentum = StrategyNeed.ema_need ∷ []
needs_of BotStrategy.range_fade = StrategyNeed.atr_need ∷ []

abbrev pub default_enabled : BotStrategy → Bool
default_enabled BotStrategy.vwap_pullback = true
default_enabled BotStrategy.orb_5m = true
default_enabled _ = false

abbrev pub strategy_registry : List BotStrategy
strategy_registry =
    vwap_pullback ∷ orb_5m ∷ orb_5m_cross ∷ vwap_rolling_100 ∷ vwap_reversion ∷ orb_retest
    ∷ ema_momentum ∷ range_fade ∷ []

pub default_enabled_strategies : List BotStrategy
default_enabled_strategies = filter default_enabled strategy_registry

abbrev pub all_needs : List StrategyNeed
all_needs =
    StrategyNeed.vwap_need ∷ StrategyNeed.atr_need ∷ StrategyNeed.orb_need ∷ StrategyNeed.ema_need
    ∷ []

module _ {N : Type 0} ⦃d : Double N⦄ where
  unfoldable pub build_strategy_context :
      List (BotCandle N) → (session_start_ms atr_period : ℕ) → List StrategyNeed → StrategyContext N
  build_strategy_context candles start atr_period needs = record {
    candles = candles;
    session_start_ms = start;
    vwap = if includes_need needs StrategyNeed.vwap_need then compute_vwap candles start else none;
    atr =
        if includes_need needs StrategyNeed.atr_need then compute_atr candles atr_period else none;
    orb =
        if includes_need needs StrategyNeed.orb_need then compute_orb_range candles start else none;
    ema_fast =
        if includes_need needs StrategyNeed.ema_need
        then compute_ema candles ema_fast_period
        else none;
    ema_slow =
        if includes_need needs StrategyNeed.ema_need
        then compute_ema candles ema_slow_period
        else none;
  }

  abbrev reverted : (vwap atr : N) → (prev last : BotCandle N) → Option SignalDirection
  reverted vwap atr prev last =
      let stretch = d.mul atr (lit 1) in
      if lt last.close (d.sub vwap stretch) && lt prev.close last.close
      then some call
      else if lt (d.add vwap stretch) last.close && lt last.close prev.close
      then some put
      else none

  unfoldable pub evaluate_vwap_reversion :
      List (BotCandle N) → (vwap atr : Option N) → Option SignalDirection
  unfolding last_two
  evaluate_vwap_reversion candles none atr = none
  evaluate_vwap_reversion candles (some vwap) none = none
  evaluate_vwap_reversion candles (some vwap) (some atr) =
      if d.le atr (lit 0)
      then none
      else elim (last_two candles) [ none ↦ none | some two ↦ reverted vwap atr two.0 two.1 ]

  abbrev retested : OrbRange N → (prev last : BotCandle N) → Option SignalDirection
  retested orb prev last =
      let band = max_of (d.dec 5 2) (d.mul (d.sub orb.high orb.low) (d.dec 15 2)) in
      if lt orb.high prev.close && d.le last.low (d.add orb.high band) && d.le orb.high last.close
      then some call
      else if lt prev.close orb.low
          && d.le (d.sub orb.low band) last.high
          && d.le last.close orb.low
      then some put
      else none

  unfoldable pub evaluate_orb_retest :
      List (BotCandle N) → Option (OrbRange N) → Option SignalDirection
  unfolding last_two
  evaluate_orb_retest candles none = none
  evaluate_orb_retest candles (some orb) = elim (last_two candles) [
    | none ↦ none
    | some two ↦ retested orb two.0 two.1
  ]

  abbrev pushed : (fast slow : N) → (prev last : BotCandle N) → Option SignalDirection
  pushed fast slow prev last =
      if lt slow fast && lt fast last.close && lt prev.close last.close
      then some call
      else if lt fast slow && lt last.close fast && lt last.close prev.close
      then some put
      else none

  unfoldable pub evaluate_ema_momentum :
      List (BotCandle N) → (ema_fast ema_slow : Option N) → Option SignalDirection
  unfolding last_two
  evaluate_ema_momentum candles none slow = none
  evaluate_ema_momentum candles (some fast) none = none
  evaluate_ema_momentum candles (some fast) (some slow) = elim (last_two candles) [
    | none ↦ none
    | some two ↦ pushed fast slow two.0 two.1
  ]

  -- `high` and `low` of the loop
  abbrev pub session_high : N → List (BotCandle N) → N
  session_high high [] = high
  session_high high (c ∷ candles) = session_high (if lt high c.high then c.high else high) candles

  abbrev pub session_low : N → List (BotCandle N) → N
  session_low low [] = low
  session_low low (c ∷ candles) = session_low (if lt c.low low then c.low else low) candles

  abbrev faded : (high low atr : N) → (prev last : BotCandle N) → Option SignalDirection
  faded high low atr prev last =
      let range = d.sub high low in
      let band = d.mul range (d.dec 2 1) in
      if d.le range (lit 0) || lt (d.mul atr (lit 2)) range
      then none
      else if d.le last.close (d.add low band) && lt prev.close last.close
      then some call
      else if d.le (d.sub high band) last.close && lt last.close prev.close
      then some put
      else none

  -- the bars of the session, of which there are six at least where it answers
  abbrev fade_session : List (BotCandle N) → (atr : N) → Option SignalDirection
  fade_session [] atr = none
  fade_session (first ∷ rest) atr = elim (last_two (first ∷ rest)) [
    | none ↦ none
    | some two ↦
        faded (session_high first.high (first ∷ rest)) (session_low first.low (first ∷ rest)) atr
          two.0 two.1
  ]

  unfoldable pub evaluate_range_fade :
      List (BotCandle N) → (session_start_ms : ℕ) → (atr : Option N) → Option SignalDirection
  unfolding last_two
  evaluate_range_fade candles start none = none
  evaluate_range_fade candles start (some atr) =
      let session = filter (λ c. leb start c.chart_time) candles in
      if ltb (length session) 6 || d.le atr (lit 0) then none else fade_session session atr

  -- `candles.slice(-ROLLING_VWAP_BARS)`
  unfoldable pub evaluate_vwap_rolling_100 :
      List (BotCandle N) → (atr : Option N) → Option SignalDirection
  evaluate_vwap_rolling_100 candles atr =
      let window = drop (length candles - rolling_vwap_bars) candles in
      elim (head? window) [
        | none ↦ none
        | some first ↦
            if ltb (length window) 2
            then none
            else evaluate_vwap_pullback window (compute_vwap window first.chart_time) atr
      ]

  -- `strategy.evaluate(ctx)`
  unfoldable pub evaluate : BotStrategy → StrategyContext N → Option SignalDirection
  evaluate BotStrategy.vwap_pullback ctx = evaluate_vwap_pullback ctx.candles ctx.vwap ctx.atr
  evaluate BotStrategy.orb_5m ctx = evaluate_orb_5m ctx.candles ctx.orb
  evaluate BotStrategy.orb_5m_cross ctx = evaluate_orb_5m_crossover ctx.candles ctx.orb
  evaluate BotStrategy.vwap_rolling_100 ctx = evaluate_vwap_rolling_100 ctx.candles ctx.atr
  evaluate BotStrategy.vwap_reversion ctx = evaluate_vwap_reversion ctx.candles ctx.vwap ctx.atr
  evaluate BotStrategy.orb_retest ctx = evaluate_orb_retest ctx.candles ctx.orb
  evaluate BotStrategy.ema_momentum ctx =
      evaluate_ema_momentum ctx.candles ctx.ema_fast ctx.ema_slow
  evaluate BotStrategy.range_fade ctx = evaluate_range_fade ctx.candles ctx.session_start_ms ctx.atr

  -- The results by the id of the strategy, `none` where there is no entry.
  unfoldable pub evaluate_enabled : List BotStrategy → StrategyContext N → Results
  unfolding evaluate
  evaluate_enabled [] ctx id = none
  evaluate_enabled (s ∷ enabled) ctx id =
      if strategy_number s == strategy_number id
      then evaluate s ctx
      else evaluate_enabled enabled ctx id

  -- What a rule says depends on no more than the indicators that its entry asks for: it says the
  -- same on a context of just these and on one of all.
  pub evaluate-needs :
      (s : BotStrategy) (candles : List (BotCandle N)) (start atr_period : ℕ)
      → evaluate s (build_strategy_context candles start atr_period (needs_of s))
        ≡ evaluate s (build_strategy_context candles start atr_period all_needs)
  unfolding evaluate build_strategy_context
  evaluate-needs BotStrategy.vwap_pullback candles start period = refl
  evaluate-needs BotStrategy.orb_5m candles start period = refl
  evaluate-needs BotStrategy.orb_5m_cross candles start period = refl
  evaluate-needs BotStrategy.vwap_rolling_100 candles start period = refl
  evaluate-needs BotStrategy.vwap_reversion candles start period = refl
  evaluate-needs BotStrategy.orb_retest candles start period = refl
  evaluate-needs BotStrategy.ema_momentum candles start period = refl
  evaluate-needs BotStrategy.range_fade candles start period = refl
