-- ===== src/Bot/Entry.antt =====
-- `evaluateEntrySignal` and `executeEntry` of src/subapps/schwab/bot/bot-engine.service.ts: the gates,
-- the signal, the contract, the size and the fill of an entry. What the engine reads from the
-- database, the streamer, the broker and the clock is its `EntryEnv`; that the window is open at the
-- time in New York, too. The row, the settings and the time are those at the start of the call, so
-- that another writer between two awaits is left out, and so are an exception, which ends the call
-- before a row is saved, the flag against a second call, the phase ENTERING, and the trail and the pin
-- of a new position, which change no field of it here.
pub mod Guards
mod Tests
use nest_js_mega_backend.Prelude.{
  ℕ, zero, suc, ◌+◌, ◌-◌, ◌*◌, Bool, true, false, not, ◌&&◌, ◌||◌, Option, none, some, List, [],
  ◌∷◌, String, ltb, leb, if◌then◌else◌, is_some, or_else, length,
}
use nest_js_mega_backend.Prelude.Double.{Double, lit}
use nest_js_mega_backend.Bot.Exit.{BotDirection, StopPremiumSource}
use nest_js_mega_backend.Bot.Lockout.{BotLane, BotMode}
use nest_js_mega_backend.Bot.Strikes.{
  StrikeFilters, OptionChainQuote, select_contract_detailed, compute_budget, size_position,
}
use nest_js_mega_backend.BotV2.Bars.{BotCandle}
use nest_js_mega_backend.BotV2.ProfitLock.{
  ProfitLockRow, profit_lock_from_settings, disaster_stop_bid, round2,
}
use nest_js_mega_backend.Bot.Strategy.{SignalDirection}
use nest_js_mega_backend.Bot.Strategy.Signals.{
  BotStrategy, CombinedSignal, SignalAgreement, votes, confirming, any, combine_signals,
}
use nest_js_mega_backend.Bot.Strategy.Rules.{
  StrategyContext, build_strategy_context, all_needs, evaluate_enabled,
}

abbrev pub quote_freshness_ms : ℕ
quote_freshness_ms = 2000

pub data GateReason : Type 0 where
  not_armed already_in_position outside_window cooldown min_equity stale_quote
        insufficient_candles :
      GateReason

pub data SkipReason : Type 0 where
  direction_disabled bot_order_already_working no_contract_match skip_budget entry_abandoned :
      SkipReason

pub data EntryEvent : Type 0 where
  gate_skip : GateReason → EntryEvent
  no_signal signal_event : EntryEvent
  skip : SkipReason → EntryEvent
  entry_submit entry_fill : (symbol : String) (quantity : ℕ) → EntryEvent

pub data BotCombineMode : Type 0 where
  confirming_mode any_mode : BotCombineMode

pub record EntrySettings (N : Type 0) : Type 0 where
  pub cooldown_mins : ℕ
  pub atr_period : ℕ
  pub strategies_enabled : List BotStrategy
  pub min_strategy_agreement : ℕ
  pub combine_mode : BotCombineMode
  -- whether `directionsEnabled` includes each of the two
  pub calls_enabled : Bool
  pub puts_enabled : Bool
  pub can_buy_calls : Bool
  pub can_buy_puts : Bool
  pub filters : StrikeFilters N
  pub risk_pct : N
  pub lock : ProfitLockRow N

pub record EntryEnv (N : Type 0) : Type 0 where
  pub now_ms : ℕ
  pub within_window : Bool
  pub min_equity_ok : Bool
  pub equity : N
  pub settled_cash : N
  pub stream_connected : Bool
  pub last_frame_at : Option ℕ
  pub candles : List (BotCandle N)
  pub session_start_ms : ℕ
  pub chart_time : Option ℕ
  pub has_bot_working_order : Bool
  pub chain : List (OptionChainQuote N)
  -- the price of the fill, `none` where the order was abandoned
  pub fill_price : Option N
  pub commission_per_contract : N

pub record EntryPosition (N : Type 0) : Type 0 where
  pub symbol : String
  pub quantity : ℕ
  pub entry_price : N
  pub direction : SignalDirection
  pub atr_used : Option N
  pub opened_at : ℕ
  pub stop_premium : N
  pub initial_stop_premium : N
  pub peak_bid : N
  pub trail_armed : Bool
  pub stop_premium_source : StopPremiumSource
  pub source : BotLane

-- Of the row of the bot, the fields that an entry reads or writes.
pub record EntryRow (N : Type 0) : Type 0 where
  pub mode : BotMode
  pub lane : Option BotLane
  pub running : Bool
  pub lockout : Bool
  pub open_position : Option (EntryPosition N)
  pub last_trade_at : Option ℕ
  pub last_signal : Option CombinedSignal
  pub paper_settled_cash : N

pub record EntryResult (N : Type 0) : Type 0 where
  pub row : EntryRow N
  -- in the order in which they are recorded
  pub events : List EntryEvent

abbrev pub is_bot_mode : BotMode → Bool
is_bot_mode BotMode.bot = true
is_bot_mode _ = false

abbrev pub is_recent : (now_ms cooldown_mins : ℕ) → Option ℕ → Bool
is_recent now_ms cooldown_mins none = false
is_recent now_ms cooldown_mins (some at) = ltb now_ms (at + cooldown_mins * 60_000)

abbrev pub is_fresh : (now_ms : ℕ) → Option ℕ → Bool
is_fresh now_ms none = false
is_fresh now_ms (some frame) = leb now_ms (frame + quote_freshness_ms)

module _ {N : Type 0} where
  -- The gates, in their order: the first that is shut, or `none`.
  unfoldable pub gate : EntryEnv N → EntrySettings N → EntryRow N → Option GateReason
  gate env settings row =
      if not (is_bot_mode row.mode) || not (is_some row.lane) || row.lockout || not row.running
      then some not_armed
      else if is_some row.open_position
      then some already_in_position
      else if not env.within_window
      then some outside_window
      else if is_recent env.now_ms settings.cooldown_mins row.last_trade_at
      then some cooldown
      else if not env.min_equity_ok
      then some min_equity
      else if not env.stream_connected || not (is_fresh env.now_ms env.last_frame_at)
      then some stale_quote
      else if ltb (length env.candles) 6
      then some insufficient_candles
      else none

  abbrev pub agreement_of : EntrySettings N → SignalAgreement
  agreement_of settings =
      if ltb 1 settings.min_strategy_agreement
      then votes settings.min_strategy_agreement
      else elim settings.combine_mode [ confirming_mode ↦ confirming | any_mode ↦ any ]

  abbrev pub is_direction_allowed : SignalDirection → EntrySettings N → Bool
  is_direction_allowed SignalDirection.call settings =
      settings.calls_enabled && settings.can_buy_calls
  is_direction_allowed SignalDirection.put settings = settings.puts_enabled && settings.can_buy_puts

  abbrev pub unchanged : EntryRow N → List EntryEvent → EntryResult N
  unchanged row events = record { row = row; events = events }

abbrev pub side_of : SignalDirection → BotDirection
side_of SignalDirection.call = BotDirection.call
side_of SignalDirection.put = BotDirection.put

abbrev pub is_live_lane : BotLane → Bool
is_live_lane BotLane.bot_live = true
is_live_lane _ = false

module _ {N : Type 0} ⦃d : Double N⦄ where
  abbrev pub commission_for_leg : (commission_per_contract : N) → (quantity : ℕ) → N
  commission_for_leg per_contract quantity = round2 (d.mul (lit quantity) per_contract)

  abbrev pub commission_for_round_trip : (commission_per_contract : N) → (quantity : ℕ) → N
  commission_for_round_trip per_contract quantity =
      round2 (d.mul (commission_for_leg per_contract quantity) (lit 2))

  abbrev pub context_of : EntryEnv N → EntrySettings N → StrategyContext N
  context_of env settings =
      build_strategy_context env.candles env.session_start_ms settings.atr_period all_needs

  abbrev pub signal_of : EntryEnv N → EntrySettings N → Option CombinedSignal
  signal_of env settings =
      combine_signals settings.strategies_enabled
        (evaluate_enabled settings.strategies_enabled (context_of env settings))
        (or_else env.chart_time env.now_ms) (agreement_of settings)

  abbrev pub quantity_for : EntryEnv N → EntrySettings N → (ask : N) → ℕ
  quantity_for env settings ask =
      size_position (compute_budget env.settled_cash env.equity settings.risk_pct) ask

  -- the cash of the paper ledger after a fill on the lane
  abbrev pub cash_after : EntryEnv N → BotLane → (fill_price : N) → (quantity : ℕ) → N → N
  cash_after env lane price quantity cash =
      if is_live_lane lane
      then cash
      else d.sub (d.sub cash (d.mul (d.mul price (lit quantity)) (lit 100)))
          (commission_for_leg env.commission_per_contract quantity)

  abbrev pub first_stop : EntryEnv N → EntrySettings N → (quantity : ℕ) → (fill_price : N) → N
  first_stop env settings quantity price =
      disaster_stop_bid price quantity
        (commission_for_round_trip env.commission_per_contract quantity)
        (profit_lock_from_settings settings.lock)

  -- the row after a fill
  unfoldable pub filled_row :
      EntryEnv N
      → EntrySettings N
      → EntryRow N
      → BotLane
      → CombinedSignal
      → (symbol : String) → (quantity : ℕ) → (price : N) → EntryRow N
  filled_row env settings row lane signal symbol quantity price = record row {
    open_position = some (record {
      symbol = symbol;
      quantity = quantity;
      entry_price = price;
      direction = signal.direction;
      atr_used = (context_of env settings).atr;
      opened_at = env.now_ms;
      stop_premium = first_stop env settings quantity price;
      initial_stop_premium = first_stop env settings quantity price;
      peak_bid = price;
      trail_armed = false;
      stop_premium_source = StopPremiumSource.initial;
      source = lane;
    });
    last_trade_at = some env.now_ms;
    last_signal = some signal;
    paper_settled_cash = cash_after env lane price quantity row.paper_settled_cash;
  }

  -- from the order to its fill
  unfoldable pub submit :
      EntryEnv N
      → EntrySettings N
      → EntryRow N
      → BotLane
      → CombinedSignal
      → (symbol : String) → (quantity : ℕ) → (fill_price : Option N) → EntryResult N
  unfolding filled_row
  submit env settings row lane signal symbol quantity none =
      unchanged row (signal_event ∷ entry_submit symbol quantity ∷ skip entry_abandoned ∷ [])
  submit env settings row lane signal symbol quantity (some price) = record {
    row = filled_row env settings row lane signal symbol quantity price;
    events = signal_event ∷ entry_submit symbol quantity ∷ entry_fill symbol quantity ∷ [];
  }

  -- the size; the text of the signal's reason then says that the budget was too small
  unfoldable pub size_entry :
      EntryEnv N
      → EntrySettings N
      → EntryRow N
      → BotLane
      → CombinedSignal
      → (symbol : String) → (quantity : ℕ) → EntryResult N
  unfolding submit
  size_entry env settings row lane signal symbol quantity =
      if ltb quantity 1
      then unchanged (record row { last_signal = some signal })
          (signal_event ∷ skip skip_budget ∷ [])
      else submit env settings row lane signal symbol quantity env.fill_price

  -- the contract that was selected, which needs both sides of its quote
  unfoldable pub take_quote :
      EntryEnv N
      → EntrySettings N
      → EntryRow N
      → BotLane
      → CombinedSignal
      → OptionChainQuote N
      → (ask : Option N) → EntryResult N
  unfolding size_entry
  take_quote env settings row lane signal q none =
      unchanged row (signal_event ∷ skip no_contract_match ∷ [])
  take_quote env settings row lane signal q (some ask) =
      if is_some q.bid
      then size_entry env settings row lane signal q.symbol (quantity_for env settings ask)
      else unchanged row (signal_event ∷ skip no_contract_match ∷ [])

  unfoldable pub take_contract :
      EntryEnv N
      → EntrySettings N
      → EntryRow N
      → BotLane
      → CombinedSignal
      → Option (OptionChainQuote N)
      → EntryResult N
  unfolding take_quote
  take_contract env settings row lane signal none =
      unchanged row (signal_event ∷ skip no_contract_match ∷ [])
  take_contract env settings row lane signal (some q) =
      take_quote env settings row lane signal q q.ask

  abbrev pub contract_of :
      EntryEnv N → EntrySettings N → CombinedSignal → Option (OptionChainQuote N)
  contract_of env settings signal =
      (select_contract_detailed env.chain (side_of signal.direction) settings.filters).contract

  unfoldable pub execute_entry :
      EntryEnv N
      → EntrySettings N
      → EntryRow N
      → (lane : Option BotLane) → CombinedSignal
      → EntryResult N
  unfolding take_contract
  execute_entry env settings row none signal = unchanged row (signal_event ∷ [])
  execute_entry env settings row (some lane) signal =
      if not (is_direction_allowed signal.direction settings)
      then unchanged row (signal_event ∷ skip direction_disabled ∷ [])
      else if is_live_lane lane && env.has_bot_working_order
      then unchanged row (signal_event ∷ skip bot_order_already_working ∷ [])
      else take_contract env settings row lane signal (contract_of env settings signal)

  abbrev pub with_signal :
      EntryEnv N → EntrySettings N → EntryRow N → Option CombinedSignal → EntryResult N
  with_signal env settings row none = unchanged row (no_signal ∷ [])
  with_signal env settings row (some signal) = execute_entry env settings row row.lane signal

  abbrev pub with_gate :
      EntryEnv N → EntrySettings N → EntryRow N → Option GateReason → EntryResult N
  with_gate env settings row (some reason) = unchanged row (gate_skip reason ∷ [])
  with_gate env settings row none = with_signal env settings row (signal_of env settings)

  unfoldable pub evaluate_entry_signal : EntryEnv N → EntrySettings N → EntryRow N → EntryResult N
  unfolding execute_entry gate
  evaluate_entry_signal env settings row = with_gate env settings row (gate env settings row)
