-- ===== src/Bot/Entry/Guards.antt =====
-- When the engine enters, and that it touches nothing else.
use nest_js_mega_backend.Prelude.{
  ℕ, ◌≡◌, ◌<◌, ◌≤◌, length, ◌⊎◌, inl, inr, refl, true, false, not, ◌&&◌, Option, none, some, String,
  ltb, if_holds, is_some, arith,
}
use nest_js_mega_backend.Prelude.Double.{Double}
use nest_js_mega_backend.Bot.Lockout.{BotLane, BotMode}
use nest_js_mega_backend.Bot.Strikes.{OptionChainQuote}
use nest_js_mega_backend.Bot.Strategy.Signals.{CombinedSignal}
use nest_js_mega_backend.Bot.Entry.{
  is_recent, is_fresh, EntryEnv, EntrySettings, EntryRow, EntryResult, GateReason, gate, signal_of,
  contract_of, quantity_for, is_live_lane, is_direction_allowed, filled_row, submit, size_entry,
  take_quote, take_contract, execute_entry, with_signal, with_gate, evaluate_entry_signal,
}

module _ {N : Type 0} ⦃d : Double N⦄ (env : EntryEnv N) (settings : EntrySettings N) where
  -- No trade: the position, the cash and the time of the last trade are as they were.
  abbrev pub IsNoTrade : EntryRow N → EntryResult N → Type 0
  IsNoTrade row r =
      (r.row.open_position ≡ row.open_position)
      × (r.row.paper_settled_cash ≡ row.paper_settled_cash)
      × (r.row.last_trade_at ≡ row.last_trade_at)

  -- The bot is armed and flat, the window is open, the cooldown is over, the equity is enough, the
  -- stream is up and fresh, and there are six bars.
  abbrev pub IsOpen : EntryRow N → Type 0
  IsOpen row =
      (row.mode ≡ BotMode.bot)
      × (row.lockout ≡ false)
      × (row.running ≡ true)
      × (row.open_position ≡ none)
      × (env.within_window ≡ true)
      × (is_recent env.now_ms settings.cooldown_mins row.last_trade_at ≡ false)
      × (env.min_equity_ok ≡ true)
      × (env.stream_connected ≡ true)
      × (is_fresh env.now_ms env.last_frame_at ≡ true)
      × (6 ≤ length env.candles)

  gate-IsOpen : (row : EntryRow N) → gate env settings row ≡ none → IsOpen row
  unfolding gate
  gate-IsOpen row e = ground arith

  -- A trade in the contract at the price: every gate was open, the strategies agreed on a signal
  -- whose direction is allowed, no order of the bot was working on the live lane, the contract is
  -- the one that was selected and has both sides of its quote, the size is one at least, and the row
  -- is that of the fill.
  abbrev pub IsTrade :
      EntryRow N
      → EntryResult N
      → BotLane
      → CombinedSignal
      → OptionChainQuote N
      → (ask price : N) → Type 0
  IsTrade row r lane signal q ask price =
      IsOpen row
      × (row.lane ≡ some lane)
      × (signal_of env settings ≡ some signal)
      × (is_direction_allowed signal.direction settings ≡ true)
      × ((is_live_lane lane && env.has_bot_working_order) ≡ false)
      × (contract_of env settings signal ≡ some q)
      × (q.ask ≡ some ask)
      × (is_some q.bid ≡ true)
      × (0 < quantity_for env settings ask)
      × (env.fill_price ≡ some price)
      × (r.row
          ≡ filled_row env settings row lane signal q.symbol (quantity_for env settings ask) price)

  abbrev pub IsGuarded : EntryRow N → EntryResult N → Type 0
  IsGuarded row r =
      IsNoTrade row r
      ⊎ ((lane : BotLane) × (signal : CombinedSignal) × (q : OptionChainQuote N) × (ask : N)
          × (price : N) × IsTrade row r lane signal q ask price)

  submit-IsGuarded :
      (row : EntryRow N) (lane : BotLane) (signal : CombinedSignal) (symbol : String) (quantity : ℕ)
      (fill : Option N)
      → let r = submit env settings row lane signal symbol quantity fill in
        IsNoTrade row r
        ⊎ ((price : N) × (fill ≡ some price)
            × (r.row ≡ filled_row env settings row lane signal symbol quantity price))
  unfolding submit
  submit-IsGuarded row lane signal symbol quantity none = inl (refl, refl, refl)
  submit-IsGuarded row lane signal symbol quantity (some price) = inr (price, refl, refl)

  size_entry-IsGuarded :
      (row : EntryRow N) (lane : BotLane) (signal : CombinedSignal) (symbol : String) (quantity : ℕ)
      → let r = size_entry env settings row lane signal symbol quantity in
        IsNoTrade row r
        ⊎ ((price : N) × (env.fill_price ≡ some price)
            × (0 < quantity)
            × (r.row ≡ filled_row env settings row lane signal symbol quantity price))
  unfolding size_entry
  size_entry-IsGuarded row lane signal symbol quantity =
      if_holds
        (λ r.
          IsNoTrade row r
          ⊎ ((price : N) × (env.fill_price ≡ some price)
              × (0 < quantity)
              × (r.row ≡ filled_row env settings row lane signal symbol quantity price)))
        (ltb quantity 1) _ (submit env settings row lane signal symbol quantity env.fill_price)
        (λ _. inl (refl, refl, refl))
        (λ enough. elim (submit-IsGuarded row lane signal symbol quantity env.fill_price) [
          | inl h ↦ inl h
          | inr (price, e, filled) ↦ inr (price, e, ground arith, filled)
        ])

  take_quote-IsGuarded :
      (row : EntryRow N) (lane : BotLane) (signal : CombinedSignal) (q : OptionChainQuote N)
      (asked : Option N)
      → let r = take_quote env settings row lane signal q asked in
        IsNoTrade row r
        ⊎ ((ask : N) × (price : N) × (asked ≡ some ask)
            × (is_some q.bid ≡ true)
            × (0 < quantity_for env settings ask)
            × (env.fill_price ≡ some price)
            × (r.row
                ≡ filled_row env settings row lane signal q.symbol
                    (quantity_for env settings ask)
                    price))
  unfolding take_quote
  take_quote-IsGuarded row lane signal q none = inl (refl, refl, refl)
  take_quote-IsGuarded row lane signal q (some ask) =
      let quantity = quantity_for env settings ask in
      if_holds
        (λ r.
          IsNoTrade row r
          ⊎ ((ask' : N) × (price : N) × (some ask ≡ some ask')
              × (is_some q.bid ≡ true)
              × (0 < quantity_for env settings ask')
              × (env.fill_price ≡ some price)
              × (r.row
                  ≡ filled_row env settings row lane signal q.symbol
                      (quantity_for env settings ask') price)))
        (is_some q.bid) (size_entry env settings row lane signal q.symbol quantity) _
        (λ bid. elim (size_entry-IsGuarded row lane signal q.symbol quantity) [
          | inl h ↦ inl h
          | inr (price, e, enough, filled) ↦ inr (ask, price, refl, bid, enough, e, filled)
        ])
        (λ _. inl (refl, refl, refl))

  take_contract-IsGuarded :
      (row : EntryRow N) (lane : BotLane) (signal : CombinedSignal)
      (contract : Option (OptionChainQuote N))
      → let r = take_contract env settings row lane signal contract in
        IsNoTrade row r
        ⊎ ((q : OptionChainQuote N) × (ask : N) × (price : N) × (contract ≡ some q)
            × (q.ask ≡ some ask)
            × (is_some q.bid ≡ true)
            × (0 < quantity_for env settings ask)
            × (env.fill_price ≡ some price)
            × (r.row
                ≡ filled_row env settings row lane signal q.symbol
                    (quantity_for env settings ask)
                    price))
  unfolding take_contract
  take_contract-IsGuarded row lane signal none = inl (refl, refl, refl)
  take_contract-IsGuarded row lane signal (some q) =
      elim (take_quote-IsGuarded row lane signal q q.ask) [
        | inl h ↦ inl h
        | inr (ask, price, asked, bid, enough, e, filled) ↦
            inr (q, ask, price, refl, asked, bid, enough, e, filled)
      ]

  execute_entry-IsGuarded :
      (row : EntryRow N) (held : Option BotLane) (signal : CombinedSignal)
      → gate env settings row ≡ none
      → row.lane ≡ held
      → signal_of env settings ≡ some signal
      → IsGuarded row (execute_entry env settings row held signal)
  unfolding execute_entry
  execute_entry-IsGuarded row none signal open_gates on agreed = inl (refl, refl, refl)
  execute_entry-IsGuarded row (some lane) signal open_gates on agreed =
      if_holds (IsGuarded row) (not (is_direction_allowed signal.direction settings)) _ _
        (λ _. inl (refl, refl, refl))
        λ allowed.
          if_holds (IsGuarded row) (is_live_lane lane && env.has_bot_working_order) _
            (take_contract env settings row lane signal (contract_of env settings signal))
            (λ _. inl (refl, refl, refl))
            (λ free.
              elim (take_contract-IsGuarded row lane signal (contract_of env settings signal)) [
                | inl h ↦ inl h
                | inr (q, ask, price, chosen, asked, bid, enough, e, filled) ↦ inr (
                  lane,
                  signal,
                  q,
                  ask,
                  price,
                  (
                    gate-IsOpen row open_gates,
                    on,
                    agreed,
                    ground arith,
                    free,
                    chosen,
                    asked,
                    bid,
                    enough,
                    e,
                    filled,
                  ),
                )
              ])

  with_signal-IsGuarded :
      (row : EntryRow N) (signal : Option CombinedSignal)
      → gate env settings row ≡ none
      → signal_of env settings ≡ signal
      → IsGuarded row (with_signal env settings row signal)
  with_signal-IsGuarded row none open_gates agreed = inl (refl, refl, refl)
  with_signal-IsGuarded row (some signal) open_gates agreed =
      execute_entry-IsGuarded row row.lane signal open_gates refl agreed

  with_gate-IsGuarded :
      (row : EntryRow N) (reason : Option GateReason)
      → gate env settings row ≡ reason
      → IsGuarded row (with_gate env settings row reason)
  with_gate-IsGuarded row (some reason) e = inl (refl, refl, refl)
  with_gate-IsGuarded row none e = with_signal-IsGuarded row (signal_of env settings) e refl

  -- Whatever the engine reads, an evaluation of a bar either leaves the position, the cash and the
  -- time of the last trade as they were, or it is a trade: every gate was open, the strategies agreed
  -- on a signal whose direction is allowed, on the live lane no order of the bot was working, the
  -- contract is the selected one and has both sides of its quote, the size is one at least, and the
  -- row is that of the fill.
  pub evaluate_entry_signal-IsGuarded :
      (row : EntryRow N) → IsGuarded row (evaluate_entry_signal env settings row)
  unfolding evaluate_entry_signal
  evaluate_entry_signal-IsGuarded row = with_gate-IsGuarded row (gate env settings row) refl
