-- ===== src/Streaming/Session/View.antt =====
-- The part of a session that the desk's calls, the ladder and the ticks leave alone.
use mathlib.Core.Path.{subst⁻¹}
use nest_js_mega_backend.Prelude.{
  ℕ, ◌≡◌, refl, ◌∙◌, Bool, true, false, not, ◌&&◌, Option, none, some, List, [], ◌∷◌, map, String,
  if_holds, has, arith, ltb, Bool-cases, inl, inr,
}
use nest_js_mega_backend.Prelude.Dict.{lookup}
use nest_js_mega_backend.Streaming.Osi.{Platform, UtcDate, format_date_key}
use nest_js_mega_backend.Streaming.Session.{Session}
use nest_js_mega_backend.Streaming.Session.Pins.{
  pin_trimmed, pin_option_symbol, drop_pin, unpin_held, unpin_trimmed, unpin_option_symbol,
  wanted_from, pin_all, unpin_stale, sync_account_option_pins, owners_of,
}
use nest_js_mega_backend.Streaming.Session.Feed.{
  SwitchStatus, recenter_ladder, move_ladder, handle_equity_ticks, handle_option_ticks,
  flush_buffered_updates, resize_ladder, seed_after_switch, subscribe_option_chart, day_rolled_over,
}
use nest_js_mega_backend.Streaming.Session.Connection.{
  DataItem, handle_data, check_rollover, heartbeat_check, seed_after_login, hang_up,
  emit_stream_status, is_stale,
}
use nest_js_mega_backend.Streaming.Session.Events.{Event, handle}

pub record View : Type 0 where
  pub logged_in : Bool
  pub disconnected_at : Option ℕ
  pub auth_recovery_attempted : Bool
  pub stream_status_reason : Option String
  pub destroyed : Bool
  pub reconnect_timer : Option ℕ
  pub heartbeat_timer : Bool
  pub feed_lock : Option String
  pub underlying_symbol : String

abbrev pub view : Session → View
view s = record {
  logged_in = s.logged_in;
  disconnected_at = s.disconnected_at;
  auth_recovery_attempted = s.auth_recovery_attempted;
  stream_status_reason = s.stream_status_reason;
  destroyed = s.destroyed;
  reconnect_timer = s.reconnect_timer;
  heartbeat_timer = s.heartbeat_timer;
  feed_lock = s.feed_lock;
  underlying_symbol = s.underlying_symbol;
}

pub pin_option_symbol-view :
    (platform : Platform) (symbol owner : String) (s : Session)
    → view (pin_option_symbol platform symbol owner s) ≡ view s
unfolding pin_option_symbol pin_trimmed
pin_option_symbol-view platform symbol owner s = ground arith

drop_pin-view : (trimmed : String) (s : Session) → view (drop_pin trimmed s) ≡ view s
unfolding drop_pin
drop_pin-view trimmed s = ground arith

unpin_held-view :
    (trimmed owner : String) (held : Option (List String)) (s : Session)
    → view (unpin_held trimmed owner held s) ≡ view s
unfolding unpin_held
unpin_held-view trimmed owner none s = drop_pin-view trimmed s
unpin_held-view trimmed owner (some owners) s = ground (arith, drop_pin-view trimmed)

pub unpin_option_symbol-view :
    (platform : Platform) (symbol owner : String) (s : Session)
    → view (unpin_option_symbol platform symbol owner s) ≡ view s
unfolding unpin_option_symbol unpin_trimmed
unpin_option_symbol-view platform symbol owner s = ground (
  arith,
  unpin_held-view (platform.trim symbol) owner (lookup (platform.trim symbol) s.pin_owners) s,
)

pub recenter_ladder-view :
    (platform : Platform) (date : UtcDate) (spot : ℕ) (s : Session)
    → view (recenter_ladder platform date spot s) ≡ view s
unfolding recenter_ladder move_ladder
recenter_ladder-view platform date spot s = ground arith

pub handle_equity_ticks-view :
    (platform : Platform) (date : UtcDate) (ticks : List (Option ℕ)) (s : Session)
    → view (handle_equity_ticks platform date ticks s) ≡ view s
unfolding handle_equity_ticks
handle_equity_ticks-view platform date [] s = refl
handle_equity_ticks-view platform date (none ∷ ticks) s =
    handle_equity_ticks-view platform date ticks s
handle_equity_ticks-view platform date (some price ∷ ticks) s =
    handle_equity_ticks-view platform date ticks _
    ∙ if_holds (λ t. view t ≡ view s) (ltb 0 price) _ _
        (λ _.
          recenter_ladder-view platform date price (record s {
            pending_underlying_price = some price;
            last_known_spot_price = some price;
          }))
        (λ _. refl)

pub handle_data-view :
    (platform : Platform) (date : UtcDate) (now : ℕ) (items : List DataItem) (s : Session)
    → view (handle_data platform date now items s) ≡ view s
unfolding handle_data handle_option_ticks
handle_data-view platform date now [] s = refl
handle_data-view platform date now (DataItem.equities ticks ∷ items) s =
    handle_data-view platform date now items _ ∙ handle_equity_ticks-view platform date ticks s
handle_data-view platform date now (DataItem.options ticks ∷ items) s =
    handle_data-view platform date now items (handle_option_ticks now ticks s)

pub seed_after_switch-view :
    (platform : Platform) (date : UtcDate) (price : Option ℕ) (s : Session)
    → view (seed_after_switch platform date price s).0 ≡ view s
unfolding seed_after_switch
seed_after_switch-view platform date none s = refl
seed_after_switch-view platform date (some price) s =
    if_holds (λ (result : Session × SwitchStatus). view result.0 ≡ view s) (ltb 0 price) _ _
      (λ _. recenter_ladder-view platform date price s) (λ _. refl)

pub seed_after_login-view :
    (platform : Platform) (date : UtcDate) (price : Option ℕ) (s : Session)
    → view (seed_after_login platform date price s) ≡ view s
unfolding seed_after_login
seed_after_login-view platform date none s = refl
seed_after_login-view platform date (some price) s =
    if_holds (λ t. view t ≡ view s) (ltb 0 price) _ _
      (λ _. recenter_ladder-view platform date price s) (λ _. refl)

pub resize_ladder-view :
    (platform : Platform) (date : UtcDate) (changed : Bool) (spot : Option ℕ) (s : Session)
    → view (resize_ladder platform date changed spot s) ≡ view s
unfolding resize_ladder
resize_ladder-view platform date changed none s = refl
resize_ladder-view platform date changed (some spot) s =
    if_holds (λ t. view t ≡ view s) (changed && s.logged_in && ltb 0 spot) _ _
      (λ _. recenter_ladder-view platform date spot (record s { center_strike = none })) (λ _. refl)

pub subscribe_option_chart-view :
    (platform : Platform) (requested : Option String) (s : Session)
    → view (subscribe_option_chart platform requested s).0 ≡ view s
unfolding subscribe_option_chart
subscribe_option_chart-view platform requested s = ground arith

check_rollover-view :
    (platform : Platform) (date : UtcDate) (spot : Option ℕ) (s : Session)
    → view (check_rollover platform date spot s) ≡ view s
unfolding check_rollover
check_rollover-view platform date none s = refl
check_rollover-view platform date (some spot) s =
    if_holds (λ t. view t ≡ view s)
      (s.logged_in && day_rolled_over s.current_expiration_date_key (format_date_key date)) _ _
      (λ _. recenter_ladder-view platform date spot s) (λ _. refl)

pub heartbeat_check-view :
    (platform : Platform) (date : UtcDate) (timeout now : ℕ) (s : Session)
    → view (heartbeat_check platform date timeout now s) ≡ view s
unfolding heartbeat_check
heartbeat_check-view platform date timeout now s =
    if_holds (λ t. view t ≡ view s) (is_stale timeout now s.last_frame_at)
      (hang_up (emit_stream_status false none s)) _ (λ _. refl)
      (λ _. check_rollover-view platform date s.last_known_spot_price s)

pin_all-view :
    (platform : Platform) (symbols : List String) (s : Session)
    → view (pin_all platform symbols s) ≡ view s
unfolding pin_all
pin_all-view platform [] s = refl
pin_all-view platform (symbol ∷ symbols) s =
    pin_all-view platform symbols _ ∙ pin_option_symbol-view platform symbol "account" s

unpin_stale-view :
    (platform : Platform) (next keys : List String) (s : Session)
    → view (unpin_stale platform next keys s) ≡ view s
unfolding unpin_stale
unpin_stale-view platform next [] s = refl
unpin_stale-view platform next (symbol ∷ keys) s =
    unpin_stale-view platform next keys _
    ∙ if_holds (λ t. view t ≡ view s)
        (has (owners_of symbol s.pin_owners) "account" && not (has next symbol)) _ _
        (λ _. unpin_option_symbol-view platform symbol "account" s) (λ _. refl)

pub sync_account_option_pins-view :
    (platform : Platform) (symbols : List String) (s : Session)
    → view (sync_account_option_pins platform symbols s) ≡ view s
unfolding sync_account_option_pins
sync_account_option_pins-view platform symbols s =
    let next = wanted_from platform [] symbols in
    let pinned = pin_all platform next s in
    unpin_stale-view platform next (map (λ entry. entry.0) pinned.pin_owners) pinned
    ∙ pin_all-view platform next s

-- The events that leave the view alone.
abbrev pub is_desk : Event → Bool
is_desk (Event.pinned symbol owner) = true
is_desk (Event.unpinned symbol owner) = true
is_desk (Event.synced symbols) = true
is_desk (Event.switch_priced date price) = true
is_desk (Event.chart_asked symbol) = true
is_desk (Event.flush_due now) = true
is_desk (Event.login_priced date price) = true
is_desk (Event.watchdog_due date now) = true
is_desk _ = false

module _ (platform : Platform) (timeout : ℕ) where
  handle-view :
      (event : Event) (s : Session)
      → is_desk event ≡ true
      → view (handle platform timeout event s) ≡ view s
  unfolding handle flush_buffered_updates
  handle-view (Event.pinned symbol owner) s desk = pin_option_symbol-view platform symbol owner s
  handle-view (Event.unpinned symbol owner) s desk =
      unpin_option_symbol-view platform symbol owner s
  handle-view (Event.synced symbols) s desk = sync_account_option_pins-view platform symbols s
  handle-view (Event.switch_priced date price) s desk = seed_after_switch-view platform date price s
  handle-view (Event.chart_asked symbol) s desk = subscribe_option_chart-view platform symbol s
  handle-view (Event.flush_due now) s desk = refl
  handle-view (Event.login_priced date price) s desk = seed_after_login-view platform date price s
  handle-view (Event.watchdog_due date now) s desk =
      heartbeat_check-view platform date timeout now s
  handle-view event s desk = absurd (ground arith)

  -- What holds of the view needs a proof for the other events only.
  pub by_view :
      (P : View → Type 0) (event : Event) (s : Session)
      → P (view s)
      → (is_desk event ≡ false → P (view (handle platform timeout event s)))
      → P (view (handle platform timeout event s))
  by_view P event s h other = elim (Bool-cases (is_desk event)) [
    | inl desk ↦ subst⁻¹ P (handle-view event s desk) h
    | inr rest ↦ other rest
  ]
