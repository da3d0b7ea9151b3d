-- ===== src/Streaming/Session/Runs.antt =====
-- The other events of a session keep it subscribed to what it should be.
use mathlib.Core.Path.{subst}
use nest_js_mega_backend.Prelude.{
  ℕ, ◌≡◌, refl, sym, Bool, true, false, not, ◌&&◌, ◌||◌, Option, none, some, List, [], ◌∷◌, map,
  String, if_holds, is_some, has, arith, All, ◌≢◌,
}
use nest_js_mega_backend.Streaming.Osi.{Platform, UtcDate, format_date_key}
use nest_js_mega_backend.Streaming.Session.{
  Session, Wire, SocketState, closed, OptionTick, opened, token_requested, refresh_forced,
}
use nest_js_mega_backend.Streaming.Session.Wanted.{is_requested}
use nest_js_mega_backend.Streaming.Session.Faithful.{Faithful, IsFaithful, out_keeps, note_keeps}
use nest_js_mega_backend.Streaming.Session.Refinement.{
  pin_option_symbol-IsFaithful, unpin_option_symbol-IsFaithful, recenter_ladder-IsFaithful,
  handle_equity_ticks-IsFaithful,
}
use nest_js_mega_backend.Streaming.Session.Switches.{
  switch_underlying-IsFaithful, seed_after_switch-IsFaithful, seed_after_login-IsFaithful,
  subscribe_option_chart-IsFaithful,
}
use nest_js_mega_backend.Streaming.Session.Pins.{
  owners_of, wanted_from, pin_all, unpin_stale, sync_account_option_pins,
}
use nest_js_mega_backend.Streaming.Session.Feed.{
  flush_buffered_updates, flush_ticks, flush_price, handle_option_ticks, day_rolled_over,
}
use nest_js_mega_backend.Streaming.Session.Connection.{
  AuthFailure, Payload, Response, DataItem, close_socket, schedule_reconnect, connect, start, stop,
  reconnect_elapsed, emit_reauth_if_dead, connect_failed, refresh_succeeded, refresh_failed,
  handle_responses, handle_data, handle_message, heartbeat_check, handle_socket_closed, is_dead,
  emit_stream_status, is_stale, hang_up, check_rollover, stamp, reconnect_delay_ms,
  schwab_reauth_reason, connect_retry_when_unauthenticated_ms,
}
use nest_js_mega_backend.Streaming.Session.Events.{Event, handle, run, is_calm, no_login}

pin_all-IsFaithful :
    (platform : Platform) (symbols : List String) (s : Session)
    → IsFaithful s
    → IsFaithful (pin_all platform symbols s)
unfolding pin_all
pin_all-IsFaithful platform [] s h = h
pin_all-IsFaithful platform (symbol ∷ symbols) s h =
    pin_all-IsFaithful platform symbols _
      (pin_option_symbol-IsFaithful platform symbol "account" s h)

unpin_stale-IsFaithful :
    (platform : Platform) (next symbols : List String) (s : Session)
    → IsFaithful s
    → IsFaithful (unpin_stale platform next symbols s)
unfolding unpin_stale
unpin_stale-IsFaithful platform next [] s h = h
unpin_stale-IsFaithful platform next (symbol ∷ symbols) s h =
    unpin_stale-IsFaithful platform next symbols _ (
      if_holds IsFaithful (has (owners_of symbol s.pin_owners) "account" && not (has next symbol)) _
        _ (λ _. unpin_option_symbol-IsFaithful platform symbol "account" s h) (λ _. h))

sync-IsFaithful :
    (platform : Platform) (symbols : List String) (s : Session)
    → IsFaithful s
    → IsFaithful (sync_account_option_pins platform symbols s)
unfolding sync_account_option_pins
sync-IsFaithful platform symbols s h =
    let next = wanted_from platform [] symbols in
    let pinned = pin_all platform next s in
    unpin_stale-IsFaithful platform next (map (λ entry. entry.0) pinned.pin_owners) pinned
      (pin_all-IsFaithful platform next s h)

flush_ticks-Faithful :
    (ticks : List OptionTick) (w : Wire) (logged_in : Bool) (quote : String) (chart : Option String)
    (window pins : List String)
    → Faithful w logged_in quote chart window pins
    → Faithful (flush_ticks ticks w) logged_in quote chart window pins
unfolding is_requested
flush_ticks-Faithful [] w on quote chart window pins h = h
flush_ticks-Faithful (tick ∷ ticks) w on quote chart window pins h =
    note_keeps w on quote chart _ window pins (λ service key. refl) h

flush_price-Faithful :
    (symbol : String) (now : ℕ) (price : Option ℕ) (w : Wire) (logged_in : Bool) (quote : String)
    (chart : Option String) (window pins : List String)
    → Faithful w logged_in quote chart window pins
    → Faithful (flush_price symbol now price w) logged_in quote chart window pins
unfolding is_requested
flush_price-Faithful symbol now none w on quote chart window pins h = h
flush_price-Faithful symbol now (some price) w on quote chart window pins h =
    note_keeps w on quote chart _ window pins (λ service key. refl) h

flush-IsFaithful :
    (now : ℕ) (s : Session) → IsFaithful s → IsFaithful (flush_buffered_updates now s)
unfolding flush_buffered_updates
flush-IsFaithful now s h =
    flush_price-Faithful s.underlying_symbol now s.pending_underlying_price _ _ _ _ _ _
      (flush_ticks-Faithful s.pending_option_ticks s.wire _ _ _ _ _ h)

handle_data-IsFaithful :
    (platform : Platform) (date : UtcDate) (now : ℕ) (items : List DataItem) (s : Session)
    → IsFaithful s
    → IsFaithful (handle_data platform date now items s)
unfolding handle_data handle_option_ticks
handle_data-IsFaithful platform date now [] s h = h
handle_data-IsFaithful platform date now (DataItem.equities ticks ∷ items) s h =
    handle_data-IsFaithful platform date now items _
      (handle_equity_ticks-IsFaithful platform date ticks s h)
handle_data-IsFaithful platform date now (DataItem.options ticks ∷ items) s h =
    handle_data-IsFaithful platform date now items (handle_option_ticks now ticks s) h

pub handle_responses_calm :
    (responses : List Response) (s : Session)
    → no_login responses ≡ true
    → handle_responses responses s ≡ s
unfolding handle_responses
handle_responses_calm [] s calm = refl
handle_responses_calm (Response.login_accepted ∷ rest) s calm = absurd (ground arith)
handle_responses_calm (Response.login_rejected ∷ rest) s calm = handle_responses_calm rest s calm
handle_responses_calm (Response.other_response ∷ rest) s calm = handle_responses_calm rest s calm

schedule_reconnect-IsFaithful :
    (delay : ℕ) (s : Session) → IsFaithful s → IsFaithful (schedule_reconnect delay s)
unfolding schedule_reconnect
schedule_reconnect-IsFaithful delay s h = if_holds IsFaithful s.destroyed _ _ (λ _. h) (λ _. h)

connect-IsFaithful : (s : Session) → IsFaithful s → IsFaithful (connect s)
unfolding connect is_requested
connect-IsFaithful s h =
    if_holds IsFaithful s.destroyed _ _ (λ _. h)
      (λ _. note_keeps s.wire _ _ _ token_requested _ _ (λ service key. refl) h)

status-IsFaithful :
    (connected : Bool) (reason : Option String) (s : Session)
    → IsFaithful s
    → IsFaithful (emit_stream_status connected reason s)
unfolding is_requested
status-IsFaithful connected reason s h = note_keeps s.wire _ _ _ _ _ _ (λ service key. refl) h

emit_reauth_if_dead-IsFaithful :
    (kind : Option AuthFailure) (s : Session)
    → IsFaithful s
    → IsFaithful (emit_reauth_if_dead kind s)
unfolding emit_reauth_if_dead
emit_reauth_if_dead-IsFaithful kind s h =
    if_holds IsFaithful (is_dead kind && not (is_some s.stream_status_reason)) _ _
      (λ _.
        status-IsFaithful false (some schwab_reauth_reason)
          (record s { stream_status_reason = some schwab_reauth_reason }) h)
      (λ _. h)

connect_failed-IsFaithful :
    (kind : Option AuthFailure) (s : Session) → IsFaithful s → IsFaithful (connect_failed kind s)
unfolding connect_failed is_requested
connect_failed-IsFaithful kind s h =
    if_holds IsFaithful (not (is_some kind) || s.auth_recovery_attempted) _ _
      (λ _. schedule_reconnect-IsFaithful _ _ (emit_reauth_if_dead-IsFaithful kind s h))
      (λ _. note_keeps s.wire _ _ _ refresh_forced _ _ (λ service key. refl) h)

close_socket_not_open : (socket : SocketState) → close_socket socket ≢ opened
close_socket_not_open SocketState.none_yet = λ up. cc up
close_socket_not_open SocketState.connecting = λ up. cc up
close_socket_not_open SocketState.opened = λ up. cc up
close_socket_not_open SocketState.closing = λ up. cc up
close_socket_not_open SocketState.closed = λ up. cc up

hang_up-IsFaithful : (s : Session) → IsFaithful (hang_up s)
unfolding Faithful
hang_up-IsFaithful s up on = absurd (close_socket_not_open s.wire.socket up)

check_rollover-IsFaithful :
    (platform : Platform) (date : UtcDate) (spot : Option ℕ) (s : Session)
    → IsFaithful s
    → IsFaithful (check_rollover platform date spot s)
unfolding check_rollover
check_rollover-IsFaithful platform date none s h = h
check_rollover-IsFaithful platform date (some spot) s h =
    if_holds IsFaithful
      (s.logged_in && day_rolled_over s.current_expiration_date_key (format_date_key date)) _ _
      (λ _. recenter_ladder-IsFaithful platform date spot s h) (λ _. h)

heartbeat_check-IsFaithful :
    (platform : Platform) (date : UtcDate) (timeout now : ℕ) (s : Session)
    → IsFaithful s
    → IsFaithful (heartbeat_check platform date timeout now s)
unfolding heartbeat_check
heartbeat_check-IsFaithful platform date timeout now s h =
    if_holds IsFaithful (is_stale timeout now s.last_frame_at) _ _
      (λ _. hang_up-IsFaithful (emit_stream_status false none s))
      (λ _. check_rollover-IsFaithful platform date s.last_known_spot_price s h)

handle_socket_closed-IsFaithful : (now : ℕ) (s : Session) → IsFaithful (handle_socket_closed now s)
unfolding handle_socket_closed
handle_socket_closed-IsFaithful now s =
    let down : Session = record s {
      wire = record s.wire { socket = closed };
      logged_in = false;
      disconnected_at = stamp now s.disconnected_at;
    } in
    schedule_reconnect-IsFaithful reconnect_delay_ms
      (record (emit_stream_status false none down) { heartbeat_timer = false })
      (out_keeps _ _ _ _ _ _ refl)

handle_message-IsFaithful :
    (platform : Platform) (date : UtcDate) (now : ℕ) (payload : Option Payload) (s : Session)
    → is_calm (Event.frame date now payload) ≡ true
    → IsFaithful s
    → IsFaithful (handle_message platform date now payload s)
unfolding handle_message
handle_message-IsFaithful platform date now none s calm h = h
handle_message-IsFaithful platform date now (some payload) s calm h =
    let heard : Session = record s { last_frame_at = some now } in
    handle_data-IsFaithful platform date now payload.data_items
      (handle_responses payload.responses heard)
      (subst IsFaithful (sym (handle_responses_calm payload.responses heard calm)) h)

refresh_failed-IsFaithful :
    (refresh_kind kind : Option AuthFailure) (s : Session)
    → IsFaithful s
    → IsFaithful (refresh_failed refresh_kind kind s)
unfolding refresh_failed
refresh_failed-IsFaithful refresh_kind kind s h =
    let told = emit_reauth_if_dead refresh_kind s in
    schedule_reconnect-IsFaithful connect_retry_when_unauthenticated_ms
      (emit_reauth_if_dead kind told)
      (emit_reauth_if_dead-IsFaithful kind told (emit_reauth_if_dead-IsFaithful refresh_kind s h))

module _ (platform : Platform) (timeout : ℕ) where
  handle-IsFaithful :
      (event : Event) (s : Session)
      → is_calm event ≡ true
      → IsFaithful s
      → IsFaithful (handle platform timeout event s)
  unfolding handle start stop reconnect_elapsed refresh_succeeded
  handle-IsFaithful (Event.pinned symbol owner) s calm h =
      pin_option_symbol-IsFaithful platform symbol owner s h
  handle-IsFaithful (Event.unpinned symbol owner) s calm h =
      unpin_option_symbol-IsFaithful platform symbol owner s h
  handle-IsFaithful (Event.synced symbols) s calm h = sync-IsFaithful platform symbols s h
  handle-IsFaithful (Event.lock_set symbol) s calm h = h
  handle-IsFaithful (Event.switch_asked date symbol opts) s calm h =
      switch_underlying-IsFaithful platform date symbol opts s h
  handle-IsFaithful (Event.switch_priced date price) s calm h =
      seed_after_switch-IsFaithful platform date price s h
  handle-IsFaithful (Event.chart_asked symbol) s calm h =
      subscribe_option_chart-IsFaithful platform symbol s h
  handle-IsFaithful (Event.flush_due now) s calm h = flush-IsFaithful now s h
  handle-IsFaithful (Event.frame date now payload) s calm h =
      handle_message-IsFaithful platform date now payload s calm h
  handle-IsFaithful (Event.login_priced date price) s calm h =
      seed_after_login-IsFaithful platform date price s h
  handle-IsFaithful (Event.watchdog_due date now) s calm h =
      heartbeat_check-IsFaithful platform date timeout now s h
  handle-IsFaithful (Event.socket_closes now) s calm h = handle_socket_closed-IsFaithful now s
  handle-IsFaithful Event.socket_opens s calm h = absurd (ground arith)
  handle-IsFaithful Event.token_ready s calm h = absurd (ground arith)
  handle-IsFaithful Event.refresh_done s calm h = schedule_reconnect-IsFaithful 0 s h
  handle-IsFaithful Event.reconnect_due s calm h =
      connect-IsFaithful (record s { reconnect_timer = none }) h
  handle-IsFaithful Event.start_asked s calm h =
      connect-IsFaithful (record s { flush_timer = true }) h
  handle-IsFaithful Event.stop_asked s calm h = hang_up-IsFaithful s
  handle-IsFaithful (Event.token_failed kind) s calm h = connect_failed-IsFaithful kind s h
  handle-IsFaithful (Event.refresh_fails refresh_kind kind) s calm h =
      refresh_failed-IsFaithful refresh_kind kind s h

  pub run-IsFaithful :
      (events : List Event) (s : Session)
      → All (λ event. is_calm event ≡ true) events
      → IsFaithful s
      → IsFaithful (run platform timeout events s)
  unfolding run
  run-IsFaithful [] s calm h = h
  run-IsFaithful (event ∷ events) s calm h =
      run-IsFaithful events (handle platform timeout event s) calm.1
        (handle-IsFaithful event s calm.0 h)
