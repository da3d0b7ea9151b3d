-- ===== src/Streaming/Session/Stopped.antt =====
-- What is left of a session after its stop.
use nest_js_mega_backend.Prelude.{
  ℕ, ◌≡◌, refl, ◌∙◌, ap, Bool, true, false, not, ◌&&◌, Option, none, some, List, [], ◌∷◌, String,
  ◌==◌, ◌===◌, if_holds, arith, All,
}
use nest_js_mega_backend.Streaming.Osi.{Platform, UtcDate, normalize_underlying_symbol}
use nest_js_mega_backend.Streaming.Session.{Session}
use nest_js_mega_backend.Streaming.Session.Feed.{
  SwitchOptions, SwitchStatus, switch_underlying, switch_symbol, resize_ladder, resubscribe,
  next_strike_count, refuses,
}
use nest_js_mega_backend.Streaming.Session.Connection.{
  Response, handle_message, handle_responses, on_logged_in, handle_socket_closed,
  schedule_reconnect, connect, start, stop, reconnect_elapsed, open_socket, socket_opened,
  connect_failed, refresh_succeeded, refresh_failed, emit_reauth_if_dead,
}
use nest_js_mega_backend.Streaming.Session.Events.{Event, handle, run}
use nest_js_mega_backend.Streaming.Session.View.{
  View, view, resize_ladder-view, handle_data-view, is_desk, by_view,
}

-- A session that is destroyed, with no timer for a reconnect and no watchdog.
abbrev pub IsQuiet : Session → Type 0
IsQuiet s = (s.destroyed ≡ true) × (s.reconnect_timer ≡ none) × (s.heartbeat_timer ≡ false)

-- The event is not the arrival of a token.
abbrev pub is_no_token : Event → Bool
is_no_token Event.token_ready = false
is_no_token _ = true

same_view-IsQuiet :
    (v w : View)
    → v ≡ w
    → (w.destroyed ≡ true) × (w.reconnect_timer ≡ none) × (w.heartbeat_timer ≡ false)
    → (v.destroyed ≡ true) × (v.reconnect_timer ≡ none) × (v.heartbeat_timer ≡ false)
same_view-IsQuiet v w same (gone, timer, dog) = (
  ap (λ v. v.destroyed) same ∙ gone,
  ap (λ v. v.reconnect_timer) same ∙ timer,
  ap (λ v. v.heartbeat_timer) same ∙ dog,
)

switch_symbol-IsQuiet :
    (platform : Platform) (date : UtcDate) (opts : SwitchOptions) (symbol : Option String)
    (s : Session)
    → IsQuiet s
    → IsQuiet (switch_symbol platform date opts symbol s).0
unfolding switch_symbol resubscribe
switch_symbol-IsQuiet platform date opts none s h = h
switch_symbol-IsQuiet platform date opts (some symbol) s h =
    let counted : Session = record s {
      ladder_strike_count = next_strike_count opts.strike_count s.ladder_strike_count;
    } in
    let changed = not (counted.ladder_strike_count == s.ladder_strike_count) in
    let resized = resize_ladder platform date changed s.last_known_spot_price counted in
    let same = resize_ladder-view platform date changed s.last_known_spot_price counted in
    let P : Session × Option SwitchStatus → Type 0 = λ result. IsQuiet result.0 in
    if_holds P (refuses s.feed_lock symbol && not opts.ignore_lock) _ _ (λ _. h)
      λ _.
        if_holds P ((symbol === s.underlying_symbol) && not opts.force) _ _
          (λ _. same_view-IsQuiet (view resized) (view counted) same h)
          λ _. if_holds P (not s.logged_in) _ _ (λ _. h) (λ _. h)

handle_responses-IsQuiet :
    (responses : List Response) (s : Session) → IsQuiet s → IsQuiet (handle_responses responses s)
unfolding handle_responses on_logged_in
handle_responses-IsQuiet [] s h = h
handle_responses-IsQuiet (Response.login_accepted ∷ rest) s h =
    handle_responses-IsQuiet rest (on_logged_in s) h
handle_responses-IsQuiet (Response.login_rejected ∷ rest) s h = handle_responses-IsQuiet rest s h
handle_responses-IsQuiet (Response.other_response ∷ rest) s h = handle_responses-IsQuiet rest s h

module _ (platform : Platform) (timeout : ℕ) where
  handle_other-IsQuiet :
      (event : Event) (s : Session)
      → is_no_token event ≡ true
      → is_desk event ≡ false
      → IsQuiet s
      → IsQuiet (handle platform timeout event s)
  unfolding handle handle_message switch_underlying handle_socket_closed schedule_reconnect connect
      start stop reconnect_elapsed open_socket socket_opened connect_failed refresh_succeeded
      refresh_failed emit_reauth_if_dead
  handle_other-IsQuiet (Event.lock_set symbol) s calm other h = h
  handle_other-IsQuiet (Event.switch_asked date symbol opts) s calm other h =
      switch_symbol-IsQuiet platform date opts (normalize_underlying_symbol platform symbol) s h
  handle_other-IsQuiet (Event.frame date now none) s calm other h = h
  handle_other-IsQuiet (Event.frame date now (some payload)) s calm other h =
      let heard : Session = record s { last_frame_at = some now } in
      same_view-IsQuiet _ (view (handle_responses payload.responses heard))
        (handle_data-view platform date now payload.data_items
          (handle_responses payload.responses heard))
        (handle_responses-IsQuiet payload.responses heard h)
  handle_other-IsQuiet (Event.socket_closes now) s calm other h = ground arith
  handle_other-IsQuiet Event.socket_opens s calm other h = h
  handle_other-IsQuiet Event.token_ready s calm other h = absurd (ground arith)
  handle_other-IsQuiet Event.refresh_done s calm other h = ground arith
  handle_other-IsQuiet Event.reconnect_due s calm other h = ground arith
  handle_other-IsQuiet Event.start_asked s calm other h = ground arith
  handle_other-IsQuiet Event.stop_asked s calm other h = (refl, refl, refl)
  handle_other-IsQuiet (Event.token_failed kind) s calm other h = ground arith
  handle_other-IsQuiet (Event.refresh_fails refresh_kind kind) s calm other h = ground arith
  handle_other-IsQuiet event s calm other h = absurd (ground arith)

  handle-IsQuiet :
      (event : Event) (s : Session)
      → is_no_token event ≡ true
      → IsQuiet s
      → IsQuiet (handle platform timeout event s)
  handle-IsQuiet event s calm h =
      by_view platform timeout
        (λ v. (v.destroyed ≡ true) × (v.reconnect_timer ≡ none) × (v.heartbeat_timer ≡ false)) event
        s h (λ other. handle_other-IsQuiet event s calm other h)

  run-IsQuiet :
      (events : List Event) (s : Session)
      → All (λ event. is_no_token event ≡ true) events
      → IsQuiet s
      → IsQuiet (run platform timeout events s)
  unfolding run
  run-IsQuiet [] s calm h = h
  run-IsQuiet (event ∷ events) s calm h =
      run-IsQuiet events (handle platform timeout event s) calm.1 (handle-IsQuiet event s calm.0 h)

  -- Once a session is stopped it is quiet, and stays so through any events among which no token
  -- arrives for a connection that it had begun: it stays destroyed, has no timer for a reconnect and
  -- no watchdog, whatever its socket, the desk and the bot do.
  pub run_after_stop-IsQuiet :
      (events : List Event) (s : Session)
      → All (λ event. is_no_token event ≡ true) events
      → IsQuiet (run platform timeout events (stop s))
  unfolding stop
  run_after_stop-IsQuiet events s calm = run-IsQuiet events (stop s) calm (refl, refl, refl)
