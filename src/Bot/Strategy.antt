-- ===== src/Bot/Strategy.antt =====
-- src/subapps/schwab/bot/bot-strategy.util.ts: the indicators and the rules that read them. Of a bar's
-- time the number of milliseconds is kept, and a volume is a natural number.
pub mod Rules
pub mod Signals
pub mod Votes
pub mod RangeLaws
mod Tests
use nest_js_mega_backend.Prelude.{
  ℕ, zero, suc, ◌+◌, ◌-◌, ◌*◌, Bool, true, false, not, ◌&&◌, ◌||◌, Option, none, some, List, [],
  ◌∷◌, map, ltb, leb, ◌==◌, if◌then◌else◌, length, take, drop, filter,
}
use nest_js_mega_backend.Prelude.Double.{Double, max_of, min_of, lt, lit}
use nest_js_mega_backend.BotV2.Bars.{BotCandle}

pub data SignalDirection : Type 0 where
  call put : SignalDirection

pub record OrbRange (N : Type 0) : Type 0 where
  pub high : N
  pub low : N

-- `candles[candles.length - 2]` and `candles[candles.length - 1]`
unfoldable pub last_two : {A : Type 0} → List A → Option (A × A)
last_two [] = none
last_two (prev ∷ []) = none
last_two (prev ∷ (last ∷ [])) = some (prev, last)
last_two (prev ∷ (next ∷ (last ∷ rest))) = last_two (next ∷ (last ∷ rest))

unfoldable pub last_of : {A : Type 0} → List A → Option A
last_of [] = none
last_of (last ∷ []) = some last
last_of (first ∷ (next ∷ rest)) = last_of (next ∷ rest)

module _ {N : Type 0} ⦃d : Double N⦄ where
  abbrev pub typical_of : BotCandle N → N
  typical_of c = d.div (d.add (d.add c.high c.low) c.close) (lit 3)

  -- The sums `pv` and `vol` of the loop.
  vwap_sums : List (BotCandle N) → (session_start_ms : ℕ) → (pv : N) → (vol : ℕ) → N × ℕ
  vwap_sums [] start pv vol = (pv, vol)
  vwap_sums (c ∷ candles) start pv vol =
      if ltb c.chart_time start
      then vwap_sums candles start pv vol
      else vwap_sums candles start (d.add pv (d.mul (typical_of c) (lit c.volume))) (vol + c.volume)

  unfoldable pub compute_vwap : List (BotCandle N) → (session_start_ms : ℕ) → Option N
  unfolding vwap_sums
  compute_vwap candles start =
      let (pv, vol) = vwap_sums candles start (lit 0) 0 in
      if vol == 0 then none else some (d.div pv (lit vol))

  -- `Math.abs(a - b)`
  abbrev pub gap : N → N → N
  gap a b = if d.le b a then d.sub a b else d.sub b a

  abbrev true_range : (prev cur : BotCandle N) → N
  true_range prev cur =
      max_of (max_of (d.sub cur.high cur.low) (gap cur.high prev.close)) (gap cur.low prev.close)

  true_ranges : BotCandle N → List (BotCandle N) → List N
  true_ranges prev [] = []
  true_ranges prev (cur ∷ candles) = true_range prev cur ∷ true_ranges cur candles

  -- `trs` of a list of bars
  all_ranges : List (BotCandle N) → List N
  unfolding true_ranges
  all_ranges [] = []
  all_ranges (first ∷ candles) = true_ranges first candles

  abbrev sum : N → List N → N
  sum total [] = total
  sum total (x ∷ xs) = sum (d.add total x) xs

  abbrev smooth : (period : ℕ) → N → List N → N
  smooth period atr [] = atr
  smooth period atr (tr ∷ trs) =
      smooth period (d.div (d.add (d.mul atr (lit (period - 1))) tr) (lit period)) trs

  -- For a period of one at least: a list of bars that is longer than it has as many ranges.
  unfoldable pub compute_atr : List (BotCandle N) → (period : ℕ) → Option N
  unfolding all_ranges
  compute_atr candles period =
      let trs = all_ranges candles in
      if ltb (length candles) (period + 1) || ltb (length trs) period
      then none
      else some
          (smooth period (d.div (sum (lit 0) (take period trs)) (lit period)) (drop period trs))

  abbrev ema_step : (k : N) → N → List (BotCandle N) → N
  ema_step k ema [] = ema
  ema_step k ema (candle ∷ candles) =
      ema_step k (d.add (d.mul candle.close k) (d.mul ema (d.sub (lit 1) k))) candles

  unfoldable pub compute_ema : List (BotCandle N) → (period : ℕ) → Option N
  compute_ema candles period =
      let k = d.div (lit 2) (lit (period + 1)) in
      let seed =
        d.div (sum (lit 0) (map (λ candle. candle.close) (take period candles))) (lit period) in
      if ltb period 1 || ltb (length candles) period
      then none
      else some (ema_step k seed (drop period candles))

  -- `Math.max(...)` and `Math.min(...)` of the bars, of which there is one at least
  abbrev pub highest : N → List (BotCandle N) → N
  highest high [] = high
  highest high (c ∷ candles) = highest (max_of high c.high) candles

  abbrev pub lowest : N → List (BotCandle N) → N
  lowest low [] = low
  lowest low (c ∷ candles) = lowest (min_of low c.low) candles

  abbrev pub range_of : List (BotCandle N) → Option (OrbRange N)
  range_of [] = none
  range_of (c ∷ candles) =
      some (record { high = highest c.high candles; low = lowest c.low candles })

  -- The bar opens in the first five minutes of the session.
  abbrev pub is_opening : (session_start_ms : ℕ) → BotCandle N → Bool
  is_opening start c = leb start c.chart_time && ltb c.chart_time (start + 5 * 60 * 1000)

  unfoldable pub compute_orb_range :
      List (BotCandle N) → (session_start_ms : ℕ) → Option (OrbRange N)
  compute_orb_range candles start =
      let orbit = filter (is_opening start) candles in
      if ltb (length orbit) 3 then none else range_of orbit

  -- A breakout of the last close.
  abbrev pub breakout : OrbRange N → BotCandle N → Option SignalDirection
  breakout orb last =
      if lt orb.high last.close then some call else if lt last.close orb.low then some put else none

  unfoldable pub evaluate_orb_5m : List (BotCandle N) → Option (OrbRange N) → Option SignalDirection
  unfolding last_of
  evaluate_orb_5m candles none = none
  evaluate_orb_5m candles (some orb) = elim (last_of candles) [
    | none ↦ none
    | some last ↦ breakout orb last
  ]

  abbrev pub crossed : OrbRange N → (prev last : BotCandle N) → Option SignalDirection
  crossed orb prev last =
      if d.le prev.close orb.high && d.le orb.low prev.close then breakout orb last else none

  unfoldable pub evaluate_orb_5m_crossover :
      List (BotCandle N) → Option (OrbRange N) → Option SignalDirection
  unfolding last_two
  evaluate_orb_5m_crossover candles none = none
  evaluate_orb_5m_crossover candles (some orb) = elim (last_two candles) [
    | none ↦ none
    | some two ↦ crossed orb two.0 two.1
  ]

  -- The bars `prev` and `last` of a list of five at least.
  abbrev pulled_back : (prev last : BotCandle N) → (vwap atr : N) → Option SignalDirection
  pulled_back prev last vwap atr =
      let band = d.mul atr (d.dec 25 2) in
      let trend_up = lt vwap last.close && d.le prev.close (d.add vwap band) in
      let trend_down = lt last.close vwap && d.le (d.sub vwap band) prev.close in
      if not (d.le (gap last.close vwap) band)
      then none
      else if trend_up && d.le prev.low last.close
      then some call
      else if trend_down && d.le last.close prev.high
      then some put
      else none

  pub evaluate_vwap_pullback : List (BotCandle N) → (vwap atr : Option N) → Option SignalDirection
  unfolding last_two
  evaluate_vwap_pullback candles none atr = none
  evaluate_vwap_pullback candles (some vwap) none = none
  evaluate_vwap_pullback candles (some vwap) (some atr) =
      if ltb (length candles) 5
      then none
      else elim (last_two candles) [ none ↦ none | some two ↦ pulled_back two.0 two.1 vwap atr ]
