-- ===== src/Streaming/Session/Feed.antt =====
-- The feed of a session: the ladder around the spot, the switch of the underlying, the chart of one
-- option, and the ticks.
use nest_js_mega_backend.Prelude.{
  ℕ, zero, suc, Bool, true, false, not, ◌&&◌, ◌||◌, Option, none, some, List, [], ◌∷◌, ◌++◌, String,
  ltb, ◌==◌, ◌===◌, if◌then◌else◌, or_else, has, filter,
}
use nest_js_mega_backend.Prelude.Int.{ℤ, pos, ◌+ℤ◌, ◌-ℤ◌, ◌*ℕ◌, pos_part}
use nest_js_mega_backend.Prelude.Dict.{Dict, lookup, insert}
use nest_js_mega_backend.Streaming.Osi.{
  Platform, UtcDate, OptionRight, format_date_key, build_osi_symbol, schwab_index_quote_symbol,
  schwab_option_root, normalize_underlying_symbol,
}
use nest_js_mega_backend.Streaming.Ladder.{
  normalize_ladder_strike_count, ladder_strike_offsets, compute_nearest_strike,
  should_recenter_ladder, resolve_ladder_subscriptions,
}
use nest_js_mega_backend.Streaming.Session.{
  Session, Wire, OptionTick, OptionQuote, levelone_equities, chart_equity, chart_options, subs,
  unsubs, ladder_recentered, option_ticks, underlying_price, note, send_request,
  unsubscribe_options, add_option_subscriptions, set_add,
}

abbrev pub set_feed_lock : Option String → Session → Session
set_feed_lock symbol s = record s { feed_lock = symbol }

-- a key that is not null and differs from today's
abbrev pub day_rolled_over : Option String → String → Bool
day_rolled_over none today = false
day_rolled_over (some key) today = not (key === today)

-- The loop over the offsets, of which `count` are left, from `offset` on.
unfoldable pub window_from :
    Platform
    → (root : String) → UtcDate
    → (nearest_strike strike_increment : ℕ) → (count : ℕ) → (offset : ℤ) → List String
    → List String
window_from platform root date nearest inc zero offset symbols = symbols
window_from platform root date nearest inc (suc count) offset symbols =
    let strike = pos nearest +ℤ (offset *ℕ inc) in
    window_from platform root date nearest inc count (offset +ℤ pos 1) (
      set_add (build_osi_symbol platform root date OptionRight.put strike)
        (set_add (build_osi_symbol platform root date OptionRight.call strike) symbols))

-- `newSymbols`
unfoldable pub ladder_window :
    Platform
    → (root : String) → UtcDate
    → (nearest_strike strike_increment strike_count : ℕ) → List String
unfolding window_from
ladder_window platform root date nearest inc strike_count =
    let offsets = ladder_strike_offsets (some strike_count) in
    window_from platform root date nearest inc (pos_part (pos (suc offsets.high) -ℤ offsets.low))
      offsets.low []

-- the part of `recenterLadder` behind its return
unfoldable pub move_ladder : (nearest_strike : ℕ) (today : String) → List String → Session → Session
unfolding unsubscribe_options add_option_subscriptions
move_ladder nearest today window s =
    let moves =
      resolve_ladder_subscriptions window s.current_window_symbols s.pinned_option_symbols in
    record s {
      wire =
          note (ladder_recentered nearest window)
            (add_option_subscriptions moves.to_sub (unsubscribe_options moves.to_unsub s.wire));
      center_strike = some nearest;
      current_expiration_date_key = some today;
      current_window_symbols = window;
    }

unfoldable pub recenter_ladder : Platform → UtcDate → (spot_price : ℕ) → Session → Session
unfolding move_ladder
recenter_ladder platform date spot_price s =
    let nearest = compute_nearest_strike spot_price s.strike_increment in
    let today = format_date_key date in
    if should_recenter_ladder nearest s.center_strike s.strike_increment
      (day_rolled_over s.current_expiration_date_key today)
    then move_ladder nearest today
        (ladder_window platform s.option_root date nearest s.strike_increment s.ladder_strike_count)
        s
    else s

-- A tick of an equity is its last price, `none` where that is no number.
unfoldable pub handle_equity_ticks : Platform → UtcDate → List (Option ℕ) → Session → Session
unfolding recenter_ladder
handle_equity_ticks platform date [] s = s
handle_equity_ticks platform date (none ∷ ticks) s = handle_equity_ticks platform date ticks s
handle_equity_ticks platform date (some price ∷ ticks) s = handle_equity_ticks platform date ticks (
    if ltb 0 price
    then recenter_ladder platform date price
        (record s { pending_underlying_price = some price; last_known_spot_price = some price })
    else s)

-- `a ?? b` of two that may be missing
abbrev pub or_previous : Option ℕ → Option ℕ → Option ℕ
or_previous none b = b
or_previous (some a) b = some a

abbrev pub merge_tick : (now : ℕ) → OptionTick → Option OptionQuote → OptionQuote
merge_tick now tick none = record { bid = tick.bid; ask = tick.ask; at = now }
merge_tick now tick (some prev) = record {
  bid = or_previous tick.bid prev.bid;
  ask = or_previous tick.ask prev.ask;
  at = now;
}

unfoldable pub merge_quotes : (now : ℕ) → List OptionTick → Dict OptionQuote → Dict OptionQuote
merge_quotes now [] quotes = quotes
merge_quotes now (tick ∷ ticks) quotes =
    merge_quotes now ticks
      (insert tick.symbol (merge_tick now tick (lookup tick.symbol quotes)) quotes)

-- The ticks as `mapOptionTicks` returns them.
unfoldable pub handle_option_ticks : (now : ℕ) → List OptionTick → Session → Session
unfolding merge_quotes
handle_option_ticks now mapped s = record s {
  last_option_quotes = merge_quotes now mapped s.last_option_quotes;
  pending_option_ticks = s.pending_option_ticks ++ mapped;
}

abbrev pub flush_ticks : List OptionTick → Wire → Wire
flush_ticks [] w = w
flush_ticks (tick ∷ ticks) w = note (option_ticks (tick ∷ ticks)) w

abbrev pub flush_price : String → (now : ℕ) → Option ℕ → Wire → Wire
flush_price symbol now none w = w
flush_price symbol now (some price) w = note (underlying_price symbol price now) w

unfoldable pub flush_buffered_updates : (now : ℕ) → Session → Session
flush_buffered_updates now s = record s {
  wire =
      flush_price s.underlying_symbol now s.pending_underlying_price
        (flush_ticks s.pending_option_ticks s.wire);
  pending_option_ticks = [];
  pending_underlying_price = none;
}

abbrev pub strike_increment_of : String → ℕ
strike_increment_of symbol = if symbol === "SPX" || symbol === "SPXW" then 500 else 100

pub data SwitchStatus : Type 0 where
  ok invalid_underlying locked not_connected no_quote : SwitchStatus

pub record SwitchOptions : Type 0 where
  pub force : Bool
  pub ignore_lock : Bool
  -- `strikeCount`, where it is given, as it stands for `normalizeLadderStrikeCount`
  pub strike_count : Option (Option ℕ)

abbrev pub next_strike_count : Option (Option ℕ) → ℕ → ℕ
next_strike_count none current = current
next_strike_count (some count) current = normalize_ladder_strike_count count

-- the lock is on and is another symbol's
abbrev pub refuses : Option String → (symbol : String) → Bool
refuses none symbol = false
refuses (some lock) symbol = not (lock === "") && not (symbol === lock)

-- The requests of a switch, which stand before the price of the new underlying is awaited.
unfoldable pub resubscribe : Platform → (symbol : String) → Session → Session
unfolding send_request unsubscribe_options schwab_index_quote_symbol schwab_option_root
resubscribe platform symbol s =
    let quote = schwab_index_quote_symbol platform symbol in
    let dropped = filter (λ key. not (has s.pinned_option_symbols key)) s.current_window_symbols in
    let left = unsubscribe_options dropped (
      send_request chart_equity unsubs (s.quote_symbol ∷ [])
        (send_request levelone_equities unsubs (s.quote_symbol ∷ []) s.wire)) in
    record s {
      wire =
          send_request chart_equity subs (quote ∷ [])
            (send_request levelone_equities subs (quote ∷ []) left);
      underlying_symbol = symbol;
      quote_symbol = quote;
      option_root = schwab_option_root platform symbol;
      strike_increment = strike_increment_of symbol;
      center_strike = none;
      current_expiration_date_key = none;
      current_window_symbols = [];
    }

-- the same underlying with another count of strikes, at the last price that was seen
unfoldable pub resize_ladder :
    Platform → UtcDate → (count_changed : Bool) → (spot_price : Option ℕ) → Session → Session
unfolding recenter_ladder
resize_ladder platform date count_changed none s = s
resize_ladder platform date count_changed (some spot) s =
    if count_changed && s.logged_in && ltb 0 spot
    then recenter_ladder platform date spot (record s { center_strike = none })
    else s

-- `switchUnderlying` up to its `await`, for a symbol as `normalizeUnderlyingSymbol` returns it, and
-- for the symbol that was asked for. `none` is that it awaits the price of the new underlying.
unfoldable pub switch_symbol :
    Platform → UtcDate → SwitchOptions → Option String → Session → Session × Option SwitchStatus
unfolding resize_ladder resubscribe
switch_symbol platform date opts none s = (s, some invalid_underlying)
switch_symbol platform date opts (some symbol) s =
    if refuses s.feed_lock symbol && not opts.ignore_lock
    then (s, some locked)
    else (let count = next_strike_count opts.strike_count s.ladder_strike_count in
        let counted = record s { ladder_strike_count = count } in
        if (symbol === s.underlying_symbol) && not opts.force
        then (
          resize_ladder platform date (not (count == s.ladder_strike_count)) s.last_known_spot_price
              counted,
          some ok,
        )
        else if not s.logged_in
        then (counted, some not_connected)
        else (resubscribe platform symbol counted, none))

unfoldable pub switch_underlying :
    Platform → UtcDate → String → SwitchOptions → Session → Session × Option SwitchStatus
unfolding switch_symbol normalize_underlying_symbol
switch_underlying platform date requested opts s =
    switch_symbol platform date opts (normalize_underlying_symbol platform requested) s

-- The rest of `switchUnderlying`: the price that was fetched, `none` where the call threw.
unfoldable pub seed_after_switch : Platform → UtcDate → Option ℕ → Session → Session × SwitchStatus
unfolding recenter_ladder
seed_after_switch platform date none s = (s, no_quote)
seed_after_switch platform date (some price) s =
    if ltb 0 price then (recenter_ladder platform date price s, ok) else (s, no_quote)

-- `quote?.lastPrice ?? quote?.mark ?? 0`
abbrev pub initial_price : (last_price mark : Option ℕ) → ℕ
initial_price last_price mark = or_else last_price (or_else mark 0)

-- `requestedSymbol?.toUpperCase()?.trim() || null`
abbrev pub chart_symbol : Platform → Option String → Option String
chart_symbol platform none = none
chart_symbol platform (some requested) =
    let symbol = platform.trim (platform.to_upper_case requested) in
    if symbol === "" then none else some symbol

abbrev pub same_symbol : Option String → Option String → Bool
same_symbol none none = true
same_symbol none (some b) = false
same_symbol (some a) none = false
same_symbol (some a) (some b) = a === b

abbrev pub unsubscribe_chart : Option String → Wire → Wire
unsubscribe_chart none w = w
unsubscribe_chart (some symbol) w = send_request chart_options unsubs (symbol ∷ []) w

abbrev pub subscribe_chart : Option String → Wire → Wire
subscribe_chart none w = w
subscribe_chart (some symbol) w = send_request chart_options subs (symbol ∷ []) w

unfoldable pub subscribe_option_chart : Platform → Option String → Session → Session × SwitchStatus
unfolding send_request
subscribe_option_chart platform requested s =
    let symbol = chart_symbol platform requested in
    if same_symbol symbol s.option_chart_symbol
    then (s, ok)
    else if not s.logged_in
    then (s, not_connected)
    else (
      record s {
        wire = subscribe_chart symbol (unsubscribe_chart s.option_chart_symbol s.wire);
        option_chart_symbol = symbol;
      },
      ok,
    )
