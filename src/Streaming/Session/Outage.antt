-- ===== src/Streaming/Session/Outage.antt =====
-- How long a session counts as cut off, and how often it tries to mend its authorization.
use nest_js_mega_backend.Prelude.{
  ℕ, ◌≡◌, ◌∙◌, ap, Bool, true, false, not, ◌&&◌, Option, none, some, List, [], ◌∷◌, String, ◌==◌,
  ◌===◌, if_holds, arith, All,
}
use nest_js_mega_backend.Streaming.Osi.{Platform, UtcDate, normalize_underlying_symbol}
use nest_js_mega_backend.Streaming.Session.{Session}
use nest_js_mega_backend.Streaming.Session.Feed.{
  SwitchOptions, SwitchStatus, switch_underlying, switch_symbol, resize_ladder, resubscribe,
  next_strike_count, refuses,
}
use nest_js_mega_backend.Streaming.Session.Connection.{
  handle_message, handle_responses, handle_socket_closed, schedule_reconnect, connect, start, stop,
  reconnect_elapsed, open_socket, socket_opened, connect_failed, refresh_succeeded, refresh_failed,
  emit_reauth_if_dead,
}
use nest_js_mega_backend.Streaming.Session.Events.{Event, handle, run, no_login}
use nest_js_mega_backend.Streaming.Session.Runs.{handle_responses_calm}
use nest_js_mega_backend.Streaming.Session.View.{
  View, view, resize_ladder-view, handle_data-view, is_desk, by_view,
}

-- The session is logged out, and has been since `since`.
abbrev pub IsDownSince : ℕ → Session → Type 0
IsDownSince since s = (s.logged_in ≡ false) × (s.disconnected_at ≡ some since)

-- The event logs in on no connection.
abbrev pub accepts_no_login : Event → Bool
accepts_no_login (Event.frame date now (some payload)) = no_login payload.responses
accepts_no_login _ = true

same_view-IsDownSince :
    (since : ℕ) (v w : View)
    → v ≡ w
    → (w.logged_in ≡ false) × (w.disconnected_at ≡ some since)
    → (v.logged_in ≡ false) × (v.disconnected_at ≡ some since)
same_view-IsDownSince since v w same (out, cut) =
    (ap (λ v. v.logged_in) same ∙ out, ap (λ v. v.disconnected_at) same ∙ cut)

switch_symbol-IsDownSince :
    (platform : Platform) (date : UtcDate) (opts : SwitchOptions) (symbol : Option String)
    (since : ℕ) (s : Session)
    → IsDownSince since s
    → IsDownSince since (switch_symbol platform date opts symbol s).0
unfolding switch_symbol resubscribe
switch_symbol-IsDownSince platform date opts none since s h = h
switch_symbol-IsDownSince platform date opts (some symbol) since s h =
    let counted : Session = record s {
      ladder_strike_count = next_strike_count opts.strike_count s.ladder_strike_count;
    } in
    let changed = not (counted.ladder_strike_count == s.ladder_strike_count) in
    let resized = resize_ladder platform date changed s.last_known_spot_price counted in
    let same = resize_ladder-view platform date changed s.last_known_spot_price counted in
    let P : Session × Option SwitchStatus → Type 0 = λ result. IsDownSince since result.0 in
    if_holds P (refuses s.feed_lock symbol && not opts.ignore_lock) _ _ (λ _. h)
      λ _.
        if_holds P ((symbol === s.underlying_symbol) && not opts.force) _ _
          (λ _. same_view-IsDownSince since (view resized) (view counted) same h)
          λ _. if_holds P (not s.logged_in) _ _ (λ _. h) (λ _. h)

module _ (platform : Platform) (timeout since : ℕ) where
  handle_other-IsDownSince :
      (event : Event) (s : Session)
      → accepts_no_login event ≡ true
      → is_desk event ≡ false
      → IsDownSince since s
      → IsDownSince since (handle platform timeout event s)
  unfolding handle handle_message switch_underlying handle_socket_closed schedule_reconnect connect
      start stop reconnect_elapsed open_socket socket_opened connect_failed refresh_succeeded
      refresh_failed emit_reauth_if_dead
  handle_other-IsDownSince (Event.lock_set symbol) s calm other h = h
  handle_other-IsDownSince (Event.switch_asked date symbol opts) s calm other h =
      switch_symbol-IsDownSince platform date opts (normalize_underlying_symbol platform symbol)
        since s h
  handle_other-IsDownSince (Event.frame date now none) s calm other h = h
  handle_other-IsDownSince (Event.frame date now (some payload)) s calm other h =
      let heard : Session = record s { last_frame_at = some now } in
      same_view-IsDownSince since _ (view heard)
        (handle_data-view platform date now payload.data_items
            (handle_responses payload.responses heard)
          ∙ ap view (handle_responses_calm payload.responses heard calm))
        h
  handle_other-IsDownSince (Event.socket_closes now) s calm other h = ground arith
  handle_other-IsDownSince Event.socket_opens s calm other h = h
  handle_other-IsDownSince Event.token_ready s calm other h = h
  handle_other-IsDownSince Event.refresh_done s calm other h = ground arith
  handle_other-IsDownSince Event.reconnect_due s calm other h = ground arith
  handle_other-IsDownSince Event.start_asked s calm other h = ground arith
  handle_other-IsDownSince Event.stop_asked s calm other h = h
  handle_other-IsDownSince (Event.token_failed kind) s calm other h = ground arith
  handle_other-IsDownSince (Event.refresh_fails refresh_kind kind) s calm other h = ground arith
  handle_other-IsDownSince event s calm other h = absurd (ground arith)

  handle-IsDownSince :
      (event : Event) (s : Session)
      → accepts_no_login event ≡ true
      → IsDownSince since s
      → IsDownSince since (handle platform timeout event s)
  handle-IsDownSince event s calm h =
      by_view platform timeout (λ v. (v.logged_in ≡ false) × (v.disconnected_at ≡ some since)) event
        s h (λ other. handle_other-IsDownSince event s calm other h)

  -- Through any events of which none logs in, failed attempts to reconnect and further closings
  -- included, an outage keeps the instant at which it began, and the session stays logged out.
  pub run-IsDownSince :
      (events : List Event) (s : Session)
      → All (λ event. accepts_no_login event ≡ true) events
      → IsDownSince since s
      → IsDownSince since (run platform timeout events s)
  unfolding run
  run-IsDownSince [] s calm h = h
  run-IsDownSince (event ∷ events) s calm h =
      run-IsDownSince events (handle platform timeout event s) calm.1
        (handle-IsDownSince event s calm.0 h)
