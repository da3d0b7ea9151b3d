-- ===== src/Streaming/Session/Login.antt =====
-- What a login subscribes to on its new connection: all that is wanted where the session has no
-- window, and all but the window where it has one.
use mathlib.Core.Path.{subst⁻¹}
use nest_js_mega_backend.Prelude.{
  ℕ, ◌≡◌, refl, ◌∙◌, ap, true, false, not, Option, none, some, List, [], ◌∷◌, String, if_holds, has,
  has-filter, filter, arith, ltb, All,
}
use nest_js_mega_backend.Streaming.Osi.{Platform, UtcDate, format_date_key}
use nest_js_mega_backend.Streaming.Ladder.{compute_nearest_strike, should_recenter_ladder}
use nest_js_mega_backend.Streaming.Session.{
  Session, Wire, Service, opened, stream_status, send_request, levelone_equities, chart_equity,
  chart_options, levelone_options, subs, add,
}
use nest_js_mega_backend.Streaming.Session.Wanted.{
  is_requested, is_wanted, apply_command, is_symbol, after_request, requested-send_request,
  requested-add_option_subscriptions, add_option_subscriptions-socket,
}
use nest_js_mega_backend.Streaming.Session.Faithful.{Faithful, IsFaithful, same_keeps}
use nest_js_mega_backend.Streaming.Session.Switches.{
  subscribe_chart-socket, requested-subscribe_chart, chart_command, keys_of,
}
use nest_js_mega_backend.Streaming.Session.Feed.{recenter_ladder, day_rolled_over, subscribe_chart}
use nest_js_mega_backend.Streaming.Session.Connection.{
  open_socket, socket_opened, on_logged_in, resume_subscriptions, seed_after_login,
}
use nest_js_mega_backend.Streaming.Session.Events.{Event, run, is_calm}
use nest_js_mega_backend.Streaming.Session.Runs.{run-IsFaithful}

-- A connection on which nothing has been asked for yet.
abbrev pub IsFresh : Wire → Type 0
IsFresh w =
    (w.socket ≡ opened)
    × ((service : Service) (key : String) → is_requested service key w.log ≡ false)

pub socket_opened-IsFresh : (s : Session) → IsFresh (socket_opened (open_socket s)).wire
unfolding socket_opened open_socket send_request is_requested
socket_opened-IsFresh s = (refl, λ service key. ground arith)

abbrev pub pins_outside_window : Session → List String
pins_outside_window s =
    filter (λ symbol. not (has s.current_window_symbols symbol)) s.pinned_option_symbols

-- what the requests of a login add up to on a fresh connection
on_logged_in_requested :
    (s : Session) (service : Service) (key : String)
    → IsFresh s.wire
    → let quote = s.quote_symbol ∷ [] in
      is_requested service key (on_logged_in s).wire.log
      ≡ after_request service key levelone_options add (pins_outside_window s) (
          after_request service key chart_options
            (chart_command s.option_chart_symbol)
            (keys_of s.option_chart_symbol)
            (after_request service key chart_equity subs quote
              (after_request service key levelone_equities subs quote false)))
unfolding on_logged_in resume_subscriptions send_request is_requested
on_logged_in_requested s service key (up, nothing) =
    let quote = s.quote_symbol ∷ [] in
    let told = record s.wire {
      log =
          stream_status
            (record { connected = true; last_frame_at = s.last_frame_at; reason = none })
          ∷ s.wire.log;
    } in
    let w1 = send_request levelone_equities subs quote told in
    let w2 = send_request chart_equity subs quote w1 in
    let w3 = subscribe_chart s.option_chart_symbol w2 in
    let up3 : w3.socket ≡ opened = subscribe_chart-socket s.option_chart_symbol w2 ∙ up in
    requested-add_option_subscriptions service key (pins_outside_window s) w3 up3
    ∙ ap (after_request service key levelone_options add (pins_outside_window s)) (
        requested-subscribe_chart s.option_chart_symbol w2 service key up
        ∙ ap
            (after_request service key chart_options (chart_command s.option_chart_symbol)
              (keys_of s.option_chart_symbol))
            (requested-send_request service key chart_equity subs quote w1 up
              ∙ ap (after_request service key chart_equity subs quote) (
                  requested-send_request service key levelone_equities subs quote told up
                  ∙ ap (after_request service key levelone_equities subs quote)
                      (nothing service key))))

charted_anew :
    (chart : Option String) (key : String)
    → apply_command (chart_command chart) (has (keys_of chart) key) false ≡ is_symbol chart key
charted_anew none key = refl
charted_anew (some symbol) key = ground arith

on_logged_in-Faithful :
    (s : Session)
    → IsFresh s.wire
    → Faithful
        (on_logged_in s).wire
        true
        s.quote_symbol
        s.option_chart_symbol
        []
        (pins_outside_window s)
unfolding Faithful is_wanted
on_logged_in-Faithful s fresh _ _ service key =
    let asked = λ (service : Service). on_logged_in_requested s service key fresh in
    elim service
      as (λ service.
        is_requested service key (on_logged_in s).wire.log
        ≡ is_wanted service key s.quote_symbol s.option_chart_symbol [] (pins_outside_window s)) [
          | Service.admin ↦ asked Service.admin
          | Service.levelone_equities ↦ ground (arith, asked Service.levelone_equities)
          | Service.chart_equity ↦ ground (arith, asked Service.chart_equity)
          | Service.chart_options ↦
              asked Service.chart_options ∙ charted_anew s.option_chart_symbol key
          | Service.levelone_options ↦ asked Service.levelone_options
        ]

-- A session that has no ladder when it logs in on a new connection is, after any sequence of pins,
-- switches, charts, ticks, timers and closings that opens no other connection, subscribed to
-- exactly what it should be while it is logged in: its requests on the connection add up, service
-- by service, to the quote and the candles of its underlying, the charted option, and the window
-- and the pins.
pub run_after_login-IsFaithful :
    (platform : Platform) (timeout : ℕ) (s : Session) (events : List Event)
    → IsFresh s.wire
    → s.current_window_symbols ≡ []
    → All (λ event. is_calm event ≡ true) events
    → IsFaithful (run platform timeout events (on_logged_in s))
unfolding on_logged_in
run_after_login-IsFaithful platform timeout s events fresh unseen calm =
    run-IsFaithful platform timeout events (on_logged_in s) calm (
      same_keeps _ true s.quote_symbol s.option_chart_symbol [] (pins_outside_window s) _ _
        (λ key.
          rw unseen (
            ground (arith, has-filter (λ symbol. not (has [] symbol)) s.pinned_option_symbols key)))
        (on_logged_in-Faithful s fresh))

-- The key is in the window of a session that is logged in, and not subscribed to.
abbrev pub LosesAt : String → Session → Type 0
LosesAt key t =
    (t.logged_in ≡ true)
    × (t.wire.socket ≡ opened)
    × (is_requested levelone_options key t.wire.log ≡ false)
    × (has t.current_window_symbols key ≡ true)

on_logged_in-socket : (s : Session) → (on_logged_in s).wire.socket ≡ s.wire.socket
unfolding on_logged_in resume_subscriptions send_request
on_logged_in-socket s =
    add_option_subscriptions-socket (pins_outside_window s) _
    ∙ subscribe_chart-socket s.option_chart_symbol _

on_logged_in_loses :
    (s : Session) (key : String)
    → IsFresh s.wire
    → has s.current_window_symbols key ≡ true
    → LosesAt key (on_logged_in s)
unfolding on_logged_in
on_logged_in_loses s key fresh shown = (
  refl,
  on_logged_in-socket s ∙ fresh.0,
  ground (
    arith,
    on_logged_in_requested s levelone_options key fresh,
    has-filter (λ symbol. not (has s.current_window_symbols symbol)) s.pinned_option_symbols key,
  ),
  shown,
)

-- A price close to the center, on the same day, changes nothing.
recenter_ladder_stays :
    (platform : Platform) (date : UtcDate) (spot : ℕ) (s : Session)
    → should_recenter_ladder
        (compute_nearest_strike spot s.strike_increment)
        s.center_strike
        s.strike_increment
        (day_rolled_over s.current_expiration_date_key (format_date_key date))
      ≡ false
    → recenter_ladder platform date spot s ≡ s
unfolding recenter_ladder
recenter_ladder_stays platform date spot s stays = rw stays refl

-- A session that has a ladder when it logs in on a new connection asks again only for the pins
-- outside of its window. If the price that it then fetches does not move the ladder, no symbol of
-- the window is subscribed to, although all of it is wanted.
pub seed_after_login_loses_window :
    (platform : Platform) (date : UtcDate) (price : ℕ) (s : Session) (key : String)
    → IsFresh s.wire
    → has s.current_window_symbols key ≡ true
    → should_recenter_ladder
        (compute_nearest_strike price s.strike_increment)
        s.center_strike
        s.strike_increment
        (day_rolled_over s.current_expiration_date_key (format_date_key date))
      ≡ false
    → LosesAt key (seed_after_login platform date (some price) (on_logged_in s))
unfolding seed_after_login recenter_ladder on_logged_in
seed_after_login_loses_window platform date price s key fresh shown stays =
    let t = on_logged_in s in
    let lost = on_logged_in_loses s key fresh shown in
    if_holds (LosesAt key) (ltb 0 price) (recenter_ladder platform date price t) t
      (λ _. subst⁻¹ (LosesAt key) (recenter_ladder_stays platform date price t stays) lost)
      (λ _. lost)
