-- ===== src/Streaming/Session/FeedLock.antt =====
-- The lock of the feed: the desk cannot move a locked session to another underlying.
use nest_js_mega_backend.Prelude.{
  ℕ, ◌≡◌, ◌∙◌, ap, Bool, true, false, not, ◌&&◌, Option, none, some, List, [], ◌∷◌, String, ◌==◌,
  ◌===◌, text_iff, if_holds, arith, All,
}
use nest_js_mega_backend.Streaming.Osi.{Platform, UtcDate, normalize_underlying_symbol}
use nest_js_mega_backend.Streaming.Session.{Session}
use nest_js_mega_backend.Streaming.Session.Feed.{
  SwitchOptions, SwitchStatus, switch_underlying, switch_symbol, resize_ladder, resubscribe,
  next_strike_count, refuses,
}
use nest_js_mega_backend.Streaming.Session.Connection.{
  Response, handle_message, handle_responses, on_logged_in, handle_socket_closed,
  schedule_reconnect, connect, start, stop, reconnect_elapsed, open_socket, socket_opened,
  connect_failed, refresh_succeeded, refresh_failed, emit_reauth_if_dead,
}
use nest_js_mega_backend.Streaming.Session.Events.{Event, handle, run}
use nest_js_mega_backend.Streaming.Session.View.{
  View, view, resize_ladder-view, handle_data-view, is_desk, by_view,
}

-- The feed is locked on the symbol, which is what it streams.
abbrev pub IsLockedOn : String → Session → Type 0
IsLockedOn symbol s = (s.feed_lock ≡ some symbol) × (s.underlying_symbol ≡ symbol)

-- The event neither sets the lock nor is a switch that ignores it.
abbrev pub respects_lock : Event → Bool
respects_lock (Event.lock_set symbol) = false
respects_lock (Event.switch_asked date symbol opts) = not opts.ignore_lock
respects_lock _ = true

same_view-IsLockedOn :
    (on : String) (v w : View)
    → v ≡ w
    → (w.feed_lock ≡ some on) × (w.underlying_symbol ≡ on)
    → (v.feed_lock ≡ some on) × (v.underlying_symbol ≡ on)
same_view-IsLockedOn on v w same (lock, shows) =
    (ap (λ v. v.feed_lock) same ∙ lock, ap (λ v. v.underlying_symbol) same ∙ shows)

switch_symbol-IsLockedOn :
    (platform : Platform) (date : UtcDate) (opts : SwitchOptions) (symbol : Option String)
    (on : String) (s : Session)
    → (on === "") ≡ false
    → opts.ignore_lock ≡ false
    → IsLockedOn on s
    → IsLockedOn on (switch_symbol platform date opts symbol s).0
unfolding switch_symbol resubscribe
switch_symbol-IsLockedOn platform date opts none on s full obeys h = h
switch_symbol-IsLockedOn platform date opts (some symbol) on s full obeys h =
    let counted : Session = record s {
      ladder_strike_count = next_strike_count opts.strike_count s.ladder_strike_count;
    } in
    let changed = not (counted.ladder_strike_count == s.ladder_strike_count) in
    let resized = resize_ladder platform date changed s.last_known_spot_price counted in
    let same = resize_ladder-view platform date changed s.last_known_spot_price counted in
    let P : Session × Option SwitchStatus → Type 0 = λ result. IsLockedOn on result.0 in
    if_holds P (refuses s.feed_lock symbol && not opts.ignore_lock) _ _ (λ _. h)
      λ allowed.
        if_holds P ((symbol === s.underlying_symbol) && not opts.force) _ _
          (λ _. same_view-IsLockedOn on (view resized) (view counted) same h)
          λ _.
            if_holds P (not s.logged_in) _ _ (λ _. h)
              (λ _.
                (h.0, allowed_symbol symbol on s.feed_lock opts.ignore_lock h.0 full obeys allowed))
  where
    allowed_symbol :
        (symbol on : String) (lock : Option String) (ignores : Bool)
        → lock ≡ some on
        → (on === "") ≡ false
        → ignores ≡ false
        → (refuses lock symbol && not ignores) ≡ false
        → symbol ≡ on
    allowed_symbol symbol on none ignores e full obeys allowed = absurd (cc e)
    allowed_symbol symbol on (some lock) ignores e full obeys allowed =
        ground (arith, text_iff symbol on)

handle_responses-IsLockedOn :
    (on : String) (responses : List Response) (s : Session)
    → IsLockedOn on s
    → IsLockedOn on (handle_responses responses s)
unfolding handle_responses on_logged_in
handle_responses-IsLockedOn on [] s h = h
handle_responses-IsLockedOn on (Response.login_accepted ∷ rest) s h =
    handle_responses-IsLockedOn on rest (on_logged_in s) h
handle_responses-IsLockedOn on (Response.login_rejected ∷ rest) s h =
    handle_responses-IsLockedOn on rest s h
handle_responses-IsLockedOn on (Response.other_response ∷ rest) s h =
    handle_responses-IsLockedOn on rest s h

module _ (platform : Platform) (timeout : ℕ) (on : String) (full : (on === "") ≡ false) where
  handle_other-IsLockedOn :
      (event : Event) (s : Session)
      → respects_lock event ≡ true
      → is_desk event ≡ false
      → IsLockedOn on s
      → IsLockedOn on (handle platform timeout event s)
  unfolding handle handle_message switch_underlying handle_socket_closed schedule_reconnect connect
      start stop reconnect_elapsed open_socket socket_opened connect_failed refresh_succeeded
      refresh_failed emit_reauth_if_dead
  handle_other-IsLockedOn (Event.lock_set symbol) s calm other h = absurd (ground arith)
  handle_other-IsLockedOn (Event.switch_asked date symbol opts) s calm other h =
      switch_symbol-IsLockedOn platform date opts (normalize_underlying_symbol platform symbol) on s
        full (ground arith) h
  handle_other-IsLockedOn (Event.frame date now none) s calm other h = h
  handle_other-IsLockedOn (Event.frame date now (some payload)) s calm other h =
      let heard : Session = record s { last_frame_at = some now } in
      same_view-IsLockedOn on _ (view (handle_responses payload.responses heard))
        (handle_data-view platform date now payload.data_items
          (handle_responses payload.responses heard))
        (handle_responses-IsLockedOn on payload.responses heard h)
  handle_other-IsLockedOn (Event.socket_closes now) s calm other h = ground arith
  handle_other-IsLockedOn Event.socket_opens s calm other h = h
  handle_other-IsLockedOn Event.token_ready s calm other h = h
  handle_other-IsLockedOn Event.refresh_done s calm other h = ground arith
  handle_other-IsLockedOn Event.reconnect_due s calm other h = ground arith
  handle_other-IsLockedOn Event.start_asked s calm other h = ground arith
  handle_other-IsLockedOn Event.stop_asked s calm other h = h
  handle_other-IsLockedOn (Event.token_failed kind) s calm other h = ground arith
  handle_other-IsLockedOn (Event.refresh_fails refresh_kind kind) s calm other h = ground arith
  handle_other-IsLockedOn event s calm other h = absurd (ground arith)

  handle-IsLockedOn :
      (event : Event) (s : Session)
      → respects_lock event ≡ true
      → IsLockedOn on s
      → IsLockedOn on (handle platform timeout event s)
  handle-IsLockedOn event s calm h =
      by_view platform timeout (λ v. (v.feed_lock ≡ some on) × (v.underlying_symbol ≡ on)) event s h
        (λ other. handle_other-IsLockedOn event s calm other h)

  -- A feed that is locked on a symbol that is not empty streams this symbol through any events, of
  -- the desk, the bot, the connection and the market, in which nobody sets the lock or ignores it.
  pub run-IsLockedOn :
      (events : List Event) (s : Session)
      → All (λ event. respects_lock event ≡ true) events
      → IsLockedOn on s
      → IsLockedOn on (run platform timeout events s)
  unfolding run
  run-IsLockedOn [] s calm h = h
  run-IsLockedOn (event ∷ events) s calm h =
      run-IsLockedOn events (handle platform timeout event s) calm.1
        (handle-IsLockedOn event s calm.0 h)
