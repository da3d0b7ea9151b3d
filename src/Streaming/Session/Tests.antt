-- ===== src/Streaming/Session/Tests.antt =====
-- Runs of a session, and the theorems about it at concrete inputs.
use nest_js_mega_backend.Prelude.{
  ℕ, ◌≡◌, refl, Bool, true, false, Option, none, some, List, [], ◌∷◌, String, ◌===◌, has,
}
use nest_js_mega_backend.Streaming.Osi.{Platform, UtcDate, format_date_key}
use nest_js_mega_backend.Streaming.Ladder.{should_recenter_ladder, compute_nearest_strike}
use nest_js_mega_backend.Streaming.Session.{Session, new_session}
use nest_js_mega_backend.Streaming.Session.Feed.{SwitchOptions}
use nest_js_mega_backend.Streaming.Session.Connection.{
  open_socket, socket_opened, on_logged_in, seed_after_login, handle_socket_closed, Response,
  DataItem, stop,
}
use nest_js_mega_backend.Streaming.Session.Events.{Event, run}
use nest_js_mega_backend.Streaming.Session.Login.{
  socket_opened-IsFresh, run_after_login-IsFaithful, seed_after_login_loses_window, LosesAt,
}
use nest_js_mega_backend.Streaming.Session.Faithful.{IsFaithful}
use nest_js_mega_backend.Streaming.Session.PinLaws.{sync_account_option_pins_lem, owns}
use nest_js_mega_backend.Streaming.Session.Pins.{sync_account_option_pins, pin_trimmed, wanted_from}
use nest_js_mega_backend.Streaming.Session.Outage.{run-IsDownSince, IsDownSince}
use nest_js_mega_backend.Streaming.Session.FeedLock.{run-IsLockedOn, IsLockedOn}
use nest_js_mega_backend.Streaming.Session.Stopped.{run_after_stop-IsQuiet, IsQuiet}

-- texts that are trimmed and in upper case already
abbrev plain : Platform
plain = record { trim = λ text. text; to_upper_case = λ text. text }

abbrev a_day : UtcDate
a_day = record { year = 2026; month = 8; day = 27 }

abbrev no_options : SwitchOptions
no_options = record { force = false; ignore_lock = false; strike_count = none }

-- a session whose socket has just opened
abbrev connected : Session
connected = socket_opened (open_socket new_session)

abbrev tape : List Event
tape =
    Event.login_priced a_day (some 77210)
    ∷ Event.pinned "SPY   260827C00700000" "bot"
    ∷ Event.frame a_day 5 (
        some (record {
          responses = Response.other_response ∷ [];
          data_items = DataItem.equities (some 77900 ∷ none ∷ []) ∷ [];
        }))
    ∷ Event.switch_asked a_day "QQQ" no_options
    ∷ Event.switch_priced a_day (some 60000)
    ∷ Event.unpinned "SPY   260827C00700000" "bot"
    ∷ []

run_after_login-IsFaithful_example : IsFaithful (run plain 15000 tape (on_logged_in connected))
unfolding socket_opened open_socket
run_after_login-IsFaithful_example =
    run_after_login-IsFaithful plain 15000 connected tape (socket_opened-IsFresh new_session) refl
      (refl, (refl, (refl, (refl, (refl, (refl, tt))))))

-- a session that has a ladder of one symbol around 772 dollars, and a new connection
abbrev cut_off : Session
cut_off = record new_session {
  center_strike = some 77200;
  current_expiration_date_key = some "20260827";
  current_window_symbols = "SPY   260827C00772000" ∷ [];
  pinned_option_symbols = "SPY   260827C00772000" ∷ [];
}

seed_after_login_loses_window_example :
    LosesAt "SPY   260827C00772000" (
      seed_after_login plain a_day
        (some 77250)
        (on_logged_in (socket_opened (open_socket cut_off))))
unfolding socket_opened open_socket should_recenter_ladder compute_nearest_strike format_date_key
seed_after_login_loses_window_example =
    seed_after_login_loses_window plain a_day 77250 (socket_opened (open_socket cut_off))
      "SPY   260827C00772000" (socket_opened-IsFresh cut_off) refl refl

sync_account_option_pins_lem_example :
    let s = pin_trimmed "A" "bot" (pin_trimmed "A" "account" new_session) in
    let after = (sync_account_option_pins plain ("B" ∷ "" ∷ []) s).pin_owners in
    (owns "A" "account" after ≡ has (wanted_from plain [] ("B" ∷ "" ∷ [])) "A")
    × (("bot" === "account") ≡ false → owns "A" "bot" after ≡ owns "A" "bot" s.pin_owners)
unfolding pin_trimmed nest_js_mega_backend.Prelude.Dict.insert
sync_account_option_pins_lem_example =
    sync_account_option_pins_lem plain ("B" ∷ "" ∷ [])
      (pin_trimmed "A" "bot" (pin_trimmed "A" "account" new_session)) "A" "bot" (λ text. refl)
      ((refl, refl), tt)

run-IsDownSince_example : IsDownSince 7 (
    run plain 15000
      (Event.reconnect_due ∷ Event.token_ready ∷ Event.socket_closes 99 ∷ [])
      (handle_socket_closed 7 new_session))
unfolding handle_socket_closed
run-IsDownSince_example =
    run-IsDownSince plain 15000 7
      (Event.reconnect_due ∷ Event.token_ready ∷ Event.socket_closes 99 ∷ [])
      (handle_socket_closed 7 new_session) (refl, (refl, (refl, tt))) (refl, refl)

abbrev locked : Session
locked = record connected { feed_lock = some "SPY"; logged_in = true }

run-IsLockedOn_example :
    IsLockedOn "SPY" (run plain 15000 (Event.switch_asked a_day "QQQ" no_options ∷ []) locked)
unfolding socket_opened open_socket
run-IsLockedOn_example =
    run-IsLockedOn plain 15000 "SPY" refl (Event.switch_asked a_day "QQQ" no_options ∷ []) locked
      (refl, tt) (refl, refl)

run_after_stop-IsQuiet_example :
    IsQuiet (run plain 15000 (Event.socket_closes 3 ∷ Event.start_asked ∷ []) (stop connected))
run_after_stop-IsQuiet_example =
    run_after_stop-IsQuiet plain 15000 (Event.socket_closes 3 ∷ Event.start_asked ∷ []) connected
      (refl, (refl, tt))
