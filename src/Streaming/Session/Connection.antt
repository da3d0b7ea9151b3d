-- ===== src/Streaming/Session/Connection.antt =====
-- The connection of a session: the start, the token, the socket, the login, the outage and the
-- stop. A call that awaits is in two parts, one up to the `await` and one from its outcome on. An
-- error is what `classifySchwabAuthFailure` makes of it, `none` for null.
use nest_js_mega_backend.Prelude.{
  ℕ, ◌-◌, Bool, true, false, not, ◌&&◌, ◌||◌, Option, none, some, List, [], ◌∷◌, String, ltb,
  if◌then◌else◌, is_some, has, filter,
}
use nest_js_mega_backend.Streaming.Osi.{Platform, UtcDate, format_date_key}
use nest_js_mega_backend.Streaming.Session.{
  Session, Wire, SocketState, OptionTick, admin, levelone_equities, chart_equity, login, subs,
  token_requested, refresh_forced, socket_constructed, stream_status, connecting, opened, closing,
  closed, note, send_request, add_option_subscriptions,
}
use nest_js_mega_backend.Streaming.Session.Feed.{
  recenter_ladder, handle_equity_ticks, handle_option_ticks, day_rolled_over, subscribe_chart,
}

abbrev pub reconnect_delay_ms : ℕ
reconnect_delay_ms = 2000

abbrev pub connect_retry_when_unauthenticated_ms : ℕ
connect_retry_when_unauthenticated_ms = 30000

pub data AuthFailure : Type 0 where
  dead_refresh rejected_access : AuthFailure

abbrev pub schwab_reauth_reason : String
schwab_reauth_reason =
    "Schwab authorization expired. Open Settings and use Reconnect Schwab — refreshing the page or Resync will not fix this."

-- `this.socket?.close()`
abbrev pub close_socket : SocketState → SocketState
close_socket SocketState.none_yet = SocketState.none_yet
close_socket SocketState.closed = SocketState.closed
close_socket _ = closing

abbrev pub emit_stream_status : (connected : Bool) → (reason : Option String) → Session → Session
emit_stream_status connected reason s = record s {
  wire =
      note
        (stream_status
          (record { connected = connected; last_frame_at = s.last_frame_at; reason = reason }))
        s.wire;
}

-- The timer that stood before is cleared, so one timer is armed at most.
unfoldable pub schedule_reconnect : (delay_ms : ℕ) → Session → Session
schedule_reconnect delay_ms s =
    if s.destroyed then s else record s { reconnect_timer = some delay_ms }

-- `connect` up to the call for a valid token
unfoldable pub connect : Session → Session
connect s = if s.destroyed then s else record s { wire = note token_requested s.wire }

unfoldable pub start : Session → Session
unfolding connect
start s = connect (record s { flush_timer = true })

unfoldable pub stop : Session → Session
stop s = record s {
  destroyed = true;
  flush_timer = false;
  heartbeat_timer = false;
  reconnect_timer = none;
  wire = record s.wire { socket = close_socket s.wire.socket };
}

-- The timer of `scheduleReconnect` runs out.
unfoldable pub reconnect_elapsed : Session → Session
unfolding connect
reconnect_elapsed s = connect (record s { reconnect_timer = none })

-- The rest of `connect` once the token and the streamer's address are there.
unfoldable pub open_socket : Session → Session
open_socket s = record s {
  wire = note socket_constructed (record s.wire { socket = connecting });
  heartbeat_timer = true;
}

abbrev pub is_dead : Option AuthFailure → Bool
is_dead (some AuthFailure.dead_refresh) = true
is_dead _ = false

-- The only reason that a session ever has is the one of a dead grant.
unfoldable pub emit_reauth_if_dead : Option AuthFailure → Session → Session
emit_reauth_if_dead kind s =
    if is_dead kind && not (is_some s.stream_status_reason)
    then emit_stream_status false (some schwab_reauth_reason)
        (record s { stream_status_reason = some schwab_reauth_reason })
    else s

-- `connect` and `recoverAuthIfPossible` from an error on, up to the forced refresh
unfoldable pub connect_failed : Option AuthFailure → Session → Session
unfolding emit_reauth_if_dead schedule_reconnect
connect_failed kind s =
    if not (is_some kind) || s.auth_recovery_attempted
    then schedule_reconnect connect_retry_when_unauthenticated_ms (emit_reauth_if_dead kind s)
    else record s { auth_recovery_attempted = true; wire = note refresh_forced s.wire }

unfoldable pub refresh_succeeded : Session → Session
unfolding schedule_reconnect
refresh_succeeded s = schedule_reconnect 0 s

-- The error of the refresh, and the one that it was to mend.
unfoldable pub refresh_failed : (refresh_kind kind : Option AuthFailure) → Session → Session
unfolding emit_reauth_if_dead schedule_reconnect
refresh_failed refresh_kind kind s =
    schedule_reconnect connect_retry_when_unauthenticated_ms
      (emit_reauth_if_dead kind (emit_reauth_if_dead refresh_kind s))

-- `socket.on('open')`
unfoldable pub socket_opened : Session → Session
unfolding send_request
socket_opened s = record s {
  wire = send_request admin login [] (record s.wire { socket = opened });
}

-- the requests of a login, which ask again for what a new connection has lost
unfoldable pub resume_subscriptions : Session → Wire
unfolding send_request add_option_subscriptions
resume_subscriptions s =
    let quotes =
      send_request chart_equity subs (s.quote_symbol ∷ [])
        (send_request levelone_equities subs (s.quote_symbol ∷ []) s.wire) in
    add_option_subscriptions
      (filter (λ symbol. not (has s.current_window_symbols symbol)) s.pinned_option_symbols)
      (subscribe_chart s.option_chart_symbol quotes)

-- `onLoggedIn` up to the call for the price. `if (pinnedOutsideWindow.length)` skips an empty list,
-- for which no chunk is sent either.
unfoldable pub on_logged_in : Session → Session
unfolding resume_subscriptions
on_logged_in s =
    let up = emit_stream_status true none (record s {
      logged_in = true;
      disconnected_at = none;
      auth_recovery_attempted = false;
      stream_status_reason = none;
    }) in
    record up { wire = resume_subscriptions up }

-- The rest of `onLoggedIn`: the price that was fetched, `none` where the call threw.
unfoldable pub seed_after_login : Platform → UtcDate → Option ℕ → Session → Session
unfolding recenter_ladder
seed_after_login platform date none s = s
seed_after_login platform date (some price) s =
    if ltb 0 price then recenter_ladder platform date price s else s

-- A response is the answer to a login, with its code 0 or not, or any other, which is only logged.
pub data Response : Type 0 where
  login_accepted login_rejected other_response : Response

-- Of the data the items that change the session; candles are passed on to the desk.
pub data DataItem : Type 0 where
  equities : List (Option ℕ) → DataItem
  options : List OptionTick → DataItem

unfoldable pub handle_responses : List Response → Session → Session
unfolding on_logged_in
handle_responses [] s = s
handle_responses (Response.login_accepted ∷ rest) s = handle_responses rest (on_logged_in s)
handle_responses (Response.login_rejected ∷ rest) s = handle_responses rest s
handle_responses (Response.other_response ∷ rest) s = handle_responses rest s

unfoldable pub handle_data : Platform → UtcDate → (now : ℕ) → List DataItem → Session → Session
unfolding handle_equity_ticks handle_option_ticks
handle_data platform date now [] s = s
handle_data platform date now (DataItem.equities ticks ∷ rest) s =
    handle_data platform date now rest (handle_equity_ticks platform date ticks s)
handle_data platform date now (DataItem.options mapped ∷ rest) s =
    handle_data platform date now rest (handle_option_ticks now mapped s)

pub record Payload : Type 0 where
  pub responses : List Response
  pub data_items : List DataItem

-- A frame that is no JSON is `none`.
unfoldable pub handle_message : Platform → UtcDate → (now : ℕ) → Option Payload → Session → Session
unfolding handle_responses handle_data
handle_message platform date now none s = record s { last_frame_at = some now }
handle_message platform date now (some payload) s =
    handle_data platform date now payload.data_items
      (handle_responses payload.responses (record s { last_frame_at = some now }))

abbrev pub is_stale : (timeout_ms now : ℕ) → Option ℕ → Bool
is_stale timeout_ms now none = false
is_stale timeout_ms now (some frame) = ltb timeout_ms (now - frame)

-- the check for a new day, at the last price that was seen
unfoldable pub check_rollover : Platform → UtcDate → (spot_price : Option ℕ) → Session → Session
unfolding recenter_ladder
check_rollover platform date none s = s
check_rollover platform date (some spot) s =
    if s.logged_in && day_rolled_over s.current_expiration_date_key (format_date_key date)
    then recenter_ladder platform date spot s
    else s

abbrev pub hang_up : Session → Session
hang_up s = record s { wire = record s.wire { socket = close_socket s.wire.socket } }

-- The interval of `startHeartbeatWatchdog`.
unfoldable pub heartbeat_check :
    Platform → UtcDate → (heartbeat_timeout_ms now : ℕ) → Session → Session
unfolding check_rollover
heartbeat_check platform date timeout_ms now s =
    if is_stale timeout_ms now s.last_frame_at
    then hang_up (emit_stream_status false none s)
    else check_rollover platform date s.last_known_spot_price s

-- the start of an outage, stamped once
abbrev pub stamp : (now : ℕ) → Option ℕ → Option ℕ
stamp now none = some now
stamp now (some since) = some since

-- The event is that of the socket in hand, which is closed then. A session that has opened a second
-- socket may hear of the end of the first one too: that event, which closes nothing in hand, is not
-- told apart.
unfoldable pub handle_socket_closed : (now : ℕ) → Session → Session
unfolding schedule_reconnect
handle_socket_closed now s =
    let down = record s {
      wire = record s.wire { socket = closed };
      logged_in = false;
      disconnected_at = stamp now s.disconnected_at;
    } in
    schedule_reconnect reconnect_delay_ms
      (record (emit_stream_status false none down) { heartbeat_timer = false })

-- `0` while the stream is up
abbrev pub get_disconnected_for_ms : (now : ℕ) → Session → ℕ
get_disconnected_for_ms now s = elim s.disconnected_at [ none ↦ 0 | some since ↦ now - since ]
