-- ===== src/Streaming/Session/Events.antt =====
-- What can happen to a session, one event at a time: the calls of the desk and the bot, the frames
-- of the streamer, the timers, and the outcomes of what the session awaits.
use nest_js_mega_backend.Prelude.{ℕ, Bool, true, false, Option, some, List, [], ◌∷◌, String}
use nest_js_mega_backend.Streaming.Osi.{Platform, UtcDate}
use nest_js_mega_backend.Streaming.Session.{Session}
use nest_js_mega_backend.Streaming.Session.Pins.{
  pin_option_symbol, unpin_option_symbol, sync_account_option_pins,
}
use nest_js_mega_backend.Streaming.Session.Feed.{
  SwitchOptions, set_feed_lock, flush_buffered_updates, switch_underlying, seed_after_switch,
  subscribe_option_chart,
}
use nest_js_mega_backend.Streaming.Session.Connection.{
  AuthFailure, Payload, Response, start, stop, reconnect_elapsed, open_socket, connect_failed,
  refresh_succeeded, refresh_failed, socket_opened, handle_message, seed_after_login,
  heartbeat_check, handle_socket_closed,
}

pub data Event : Type 0 where
  pinned unpinned : (symbol owner : String) → Event
  synced : List String → Event
  lock_set : Option String → Event
  switch_asked : UtcDate → (symbol : String) → SwitchOptions → Event
  switch_priced : UtcDate → Option ℕ → Event
  chart_asked : Option String → Event
  flush_due : (now : ℕ) → Event
  frame : UtcDate → (now : ℕ) → Option Payload → Event
  login_priced : UtcDate → Option ℕ → Event
  watchdog_due : UtcDate → (now : ℕ) → Event
  socket_closes : (now : ℕ) → Event
  socket_opens token_ready refresh_done reconnect_due start_asked stop_asked : Event
  token_failed : Option AuthFailure → Event
  refresh_fails : (refresh_kind kind : Option AuthFailure) → Event

module _ (platform : Platform) (heartbeat_timeout_ms : ℕ) where
  unfoldable pub handle : Event → Session → Session
  unfolding switch_underlying seed_after_switch subscribe_option_chart
  handle (Event.pinned symbol owner) s = pin_option_symbol platform symbol owner s
  handle (Event.unpinned symbol owner) s = unpin_option_symbol platform symbol owner s
  handle (Event.synced symbols) s = sync_account_option_pins platform symbols s
  handle (Event.lock_set symbol) s = set_feed_lock symbol s
  handle (Event.switch_asked date symbol opts) s = (switch_underlying platform date symbol opts s).0
  handle (Event.switch_priced date price) s = (seed_after_switch platform date price s).0
  handle (Event.chart_asked symbol) s = (subscribe_option_chart platform symbol s).0
  handle (Event.flush_due now) s = flush_buffered_updates now s
  handle (Event.frame date now payload) s = handle_message platform date now payload s
  handle (Event.login_priced date price) s = seed_after_login platform date price s
  handle (Event.watchdog_due date now) s = heartbeat_check platform date heartbeat_timeout_ms now s
  handle (Event.socket_closes now) s = handle_socket_closed now s
  handle Event.socket_opens s = socket_opened s
  handle Event.token_ready s = open_socket s
  handle Event.refresh_done s = refresh_succeeded s
  handle Event.reconnect_due s = reconnect_elapsed s
  handle Event.start_asked s = start s
  handle Event.stop_asked s = stop s
  handle (Event.token_failed kind) s = connect_failed kind s
  handle (Event.refresh_fails refresh_kind kind) s = refresh_failed refresh_kind kind s

  unfoldable pub run : List Event → Session → Session
  unfolding handle
  run [] s = s
  run (event ∷ events) s = run events (handle event s)

-- No answer accepts a login.
abbrev pub no_login : List Response → Bool
no_login [] = true
no_login (Response.login_accepted ∷ rest) = false
no_login (Response.login_rejected ∷ rest) = no_login rest
no_login (Response.other_response ∷ rest) = no_login rest

-- The event neither opens a connection nor logs in on one.
abbrev pub is_calm : Event → Bool
is_calm Event.socket_opens = false
is_calm Event.token_ready = false
is_calm (Event.frame date now (some payload)) = no_login payload.responses
is_calm _ = true
