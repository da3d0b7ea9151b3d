-- ===== src/Streaming/Session/Switches.antt =====
-- A switch of the underlying, the chart of one option and a login keep the session subscribed to
-- what it should be.
use nest_js_mega_backend.Prelude.{
  ℕ, ◌≡◌, refl, sym, ◌∙◌, ap, Bool, not, ◌&&◌, Option, none, some, List, [], ◌∷◌, String, ◌==◌,
  ◌===◌, if◌then◌else◌, if_holds, is_some, has, has-filter, filter, arith, ltb,
}
use nest_js_mega_backend.Streaming.Osi.{
  Platform, UtcDate, normalize_underlying_symbol, schwab_index_quote_symbol,
}
use nest_js_mega_backend.Streaming.Session.{
  Session, Wire, Service, Command, opened, unsubscribe_options, levelone_equities, chart_equity,
  chart_options, levelone_options, subs, add, unsubs, send_request,
}
use nest_js_mega_backend.Streaming.Session.Wanted.{
  is_requested, is_wanted, after_request, apply_command, is_symbol, requested-send_request,
  requested-unsubscribe_options, unsubscribe_options-socket,
}
use nest_js_mega_backend.Streaming.Session.Faithful.{Faithful, IsFaithful}
use nest_js_mega_backend.Streaming.Session.Feed.{
  recenter_ladder, resubscribe, resize_ladder, switch_symbol, switch_underlying, seed_after_switch,
  subscribe_chart, unsubscribe_chart, same_symbol, refuses, next_strike_count, SwitchOptions,
  subscribe_option_chart, chart_symbol,
}
use nest_js_mega_backend.Streaming.Session.Connection.{seed_after_login}
use nest_js_mega_backend.Streaming.Session.Refinement.{recenter_ladder-IsFaithful}

-- What the requests of `resubscribe` add up to, each by its own.
requested-resubscribe :
    (platform : Platform) (symbol : String) (s : Session) (service : Service) (key : String)
    → s.wire.socket ≡ opened
    → let new = schwab_index_quote_symbol platform symbol ∷ [] in
      let old = s.quote_symbol ∷ [] in
      let dropped =
        filter (λ key. not (has s.pinned_option_symbols key)) s.current_window_symbols in
      is_requested service key (resubscribe platform symbol s).wire.log
      ≡ after_request service key chart_equity subs new (
          after_request service key levelone_equities subs new (
            after_request service key levelone_options unsubs dropped (
              after_request service key chart_equity unsubs old (
                after_request service key levelone_equities unsubs old
                  (is_requested service key s.wire.log)))))
unfolding resubscribe send_request
requested-resubscribe platform symbol s service key up =
    let new = schwab_index_quote_symbol platform symbol ∷ [] in
    let old = s.quote_symbol ∷ [] in
    let dropped : List String =
      filter (λ key. not (has s.pinned_option_symbols key)) s.current_window_symbols in
    let w1 = send_request levelone_equities unsubs old s.wire in
    let w2 = send_request chart_equity unsubs old w1 in
    let w3 = unsubscribe_options dropped w2 in
    let up3 = unsubscribe_options-socket dropped w2 ∙ up in
    let w4 = send_request levelone_equities subs new w3 in
    let e1 = requested-send_request service key levelone_equities unsubs old s.wire up in
    let e2 = requested-send_request service key chart_equity unsubs old w1 up in
    let e3 = requested-unsubscribe_options service key dropped w2 up in
    let e4 = requested-send_request service key levelone_equities subs new w3 up3 in
    let e5 = requested-send_request service key chart_equity subs new w4 up3 in
    e5
    ∙ ap (after_request service key chart_equity subs new) (
        e4
        ∙ ap (after_request service key levelone_equities subs new) (
            e3
            ∙ ap (after_request service key levelone_options unsubs dropped)
                (e2 ∙ ap (after_request service key chart_equity unsubs old) e1)))

-- the fields that a switch of the underlying sets, as the invariant reads them
resubscribe-IsFaithful :
    (platform : Platform) (symbol : String) (s : Session)
    → IsFaithful s
    → IsFaithful (resubscribe platform symbol s)
unfolding Faithful is_wanted resubscribe send_request
resubscribe-IsFaithful platform symbol s h up on service key =
    let up' : s.wire.socket ≡ opened = sym (unsubscribe_options-socket _ _) ∙ up in
    let asked = λ (service : Service). requested-resubscribe platform symbol s service key up' in
    let before = λ (service : Service). h up' on service key in
    elim service
      as (λ service.
        is_requested service key (resubscribe platform symbol s).wire.log
        ≡ is_wanted service key (schwab_index_quote_symbol platform symbol) s.option_chart_symbol []
            s.pinned_option_symbols) [
              | Service.admin ↦ asked Service.admin ∙ before Service.admin
              | Service.levelone_equities ↦ ground (arith, asked Service.levelone_equities)
              | Service.chart_equity ↦ ground (arith, asked Service.chart_equity)
              | Service.chart_options ↦ asked Service.chart_options ∙ before Service.chart_options
              | Service.levelone_options ↦ ground (
                arith,
                asked Service.levelone_options,
                before Service.levelone_options,
                has-filter (λ key. not (has s.pinned_option_symbols key)) s.current_window_symbols
                    key,
              )
            ]

resize_ladder-IsFaithful :
    (platform : Platform) (date : UtcDate) (changed : Bool) (spot : Option ℕ) (s : Session)
    → IsFaithful s
    → IsFaithful (resize_ladder platform date changed spot s)
unfolding resize_ladder
resize_ladder-IsFaithful platform date changed none s h = h
resize_ladder-IsFaithful platform date changed (some spot) s h =
    if_holds IsFaithful (changed && s.logged_in && ltb 0 spot)
      (recenter_ladder platform date spot (record s { center_strike = none })) s
      (λ _. recenter_ladder-IsFaithful platform date spot _ h) (λ _. h)

abbrev result-IsFaithful {ℓ} : {A : Type ℓ} → Session × A → Type 0
result-IsFaithful result = IsFaithful result.0

switch_symbol-IsFaithful :
    (platform : Platform) (date : UtcDate) (opts : SwitchOptions) (symbol : Option String)
    (s : Session)
    → IsFaithful s
    → IsFaithful (switch_symbol platform date opts symbol s).0
unfolding switch_symbol
switch_symbol-IsFaithful platform date opts none s h = h
switch_symbol-IsFaithful platform date opts (some symbol) s h =
    let P = result-IsFaithful in
    let counted : Session = record s {
      ladder_strike_count = next_strike_count opts.strike_count s.ladder_strike_count;
    } in
    let changed = not (counted.ladder_strike_count == s.ladder_strike_count) in
    if_holds P (refuses s.feed_lock symbol && not opts.ignore_lock) _ _ (λ _. h)
      λ _.
        if_holds P ((symbol === s.underlying_symbol) && not opts.force) _ _
          (λ _. resize_ladder-IsFaithful platform date changed s.last_known_spot_price counted h)
          λ _.
            if_holds P (not s.logged_in) _ _ (λ _. h)
              (λ _. resubscribe-IsFaithful platform symbol counted h)

pub switch_underlying-IsFaithful :
    (platform : Platform) (date : UtcDate) (symbol : String) (opts : SwitchOptions) (s : Session)
    → IsFaithful s
    → IsFaithful (switch_underlying platform date symbol opts s).0
unfolding switch_underlying
switch_underlying-IsFaithful platform date requested opts s h =
    switch_symbol-IsFaithful platform date opts (normalize_underlying_symbol platform requested) s h

pub seed_after_switch-IsFaithful :
    (platform : Platform) (date : UtcDate) (price : Option ℕ) (s : Session)
    → IsFaithful s
    → IsFaithful (seed_after_switch platform date price s).0
unfolding seed_after_switch
seed_after_switch-IsFaithful platform date none s h = h
seed_after_switch-IsFaithful platform date (some price) s h =
    if_holds result-IsFaithful (ltb 0 price) _ _
      (λ _. recenter_ladder-IsFaithful platform date price s h) (λ _. h)

pub seed_after_login-IsFaithful :
    (platform : Platform) (date : UtcDate) (price : Option ℕ) (s : Session)
    → IsFaithful s
    → IsFaithful (seed_after_login platform date price s)
unfolding seed_after_login
seed_after_login-IsFaithful platform date none s h = h
seed_after_login-IsFaithful platform date (some price) s h =
    if_holds IsFaithful (ltb 0 price) _ _ (λ _. recenter_ladder-IsFaithful platform date price s h)
      (λ _. h)

unsubscribe_chart-socket :
    (chart : Option String) (w : Wire) → (unsubscribe_chart chart w).socket ≡ w.socket
unfolding send_request
unsubscribe_chart-socket none w = refl
unsubscribe_chart-socket (some symbol) w = refl

pub subscribe_chart-socket :
    (chart : Option String) (w : Wire) → (subscribe_chart chart w).socket ≡ w.socket
unfolding send_request
subscribe_chart-socket none w = refl
subscribe_chart-socket (some symbol) w = refl

abbrev pub keys_of : Option String → List String
keys_of none = []
keys_of (some symbol) = symbol ∷ []

abbrev pub chart_command : Option String → Command
chart_command chart = if is_some chart then subs else add

-- whether the chart is charted once its request is sent
pub requested-subscribe_chart :
    (chart : Option String) (w : Wire) (service : Service) (key : String)
    → w.socket ≡ opened
    → is_requested service key (subscribe_chart chart w).log
      ≡ after_request service key chart_options
          (chart_command chart)
          (keys_of chart)
          (is_requested service key w.log)
requested-subscribe_chart none w service key up = ground arith
requested-subscribe_chart (some symbol) w service key up =
    requested-send_request service key chart_options subs (symbol ∷ []) w up

requested-unsubscribe_chart :
    (chart : Option String) (w : Wire) (service : Service) (key : String)
    → w.socket ≡ opened
    → is_requested service key (unsubscribe_chart chart w).log
      ≡ after_request service key chart_options unsubs
          (keys_of chart)
          (is_requested service key w.log)
requested-unsubscribe_chart none w service key up = ground arith
requested-unsubscribe_chart (some symbol) w service key up =
    requested-send_request service key chart_options unsubs (symbol ∷ []) w up

charted :
    (old new : Option String) (key : String)
    → apply_command
        (chart_command new)
        (has (keys_of new) key)
        (apply_command unsubs (has (keys_of old) key) (is_symbol old key))
      ≡ is_symbol new key
charted none none key = refl
charted none (some new) key = ground arith
charted (some old) none key = ground arith
charted (some old) (some new) key = ground arith

chart_change-IsFaithful :
    (chart : Option String) (s : Session)
    → IsFaithful s
    → IsFaithful (record s {
      wire = subscribe_chart chart (unsubscribe_chart s.option_chart_symbol s.wire);
      option_chart_symbol = chart;
    })
unfolding Faithful is_wanted
chart_change-IsFaithful chart s h up on service key =
    let w = unsubscribe_chart s.option_chart_symbol s.wire in
    let up1 : w.socket ≡ opened = sym (subscribe_chart-socket chart w) ∙ up in
    let up2 : s.wire.socket ≡ opened =
      sym (unsubscribe_chart-socket s.option_chart_symbol s.wire) ∙ up1 in
    let asked = λ (service : Service). requested-subscribe_chart chart w service key up1 in
    let left = λ (service : Service).
      requested-unsubscribe_chart s.option_chart_symbol s.wire service key up2 in
    let before = λ (service : Service). h up2 on service key in
    elim service
      as (λ service.
        is_requested service key (subscribe_chart chart w).log
        ≡ is_wanted service key s.quote_symbol chart s.current_window_symbols
            s.pinned_option_symbols) [
              | Service.admin ↦ asked Service.admin ∙ left Service.admin ∙ before Service.admin
              | Service.levelone_equities ↦
                  asked Service.levelone_equities
                  ∙ left Service.levelone_equities
                  ∙ before Service.levelone_equities
              | Service.chart_equity ↦
                  asked Service.chart_equity
                  ∙ left Service.chart_equity
                  ∙ before Service.chart_equity
              | Service.chart_options ↦
                  asked Service.chart_options
                  ∙ ap (apply_command (chart_command chart) (has (keys_of chart) key)) (
                      left Service.chart_options
                      ∙ ap (apply_command unsubs (has (keys_of s.option_chart_symbol) key))
                          (before Service.chart_options))
                  ∙ charted s.option_chart_symbol chart key
              | Service.levelone_options ↦
                  asked Service.levelone_options
                  ∙ left Service.levelone_options
                  ∙ before Service.levelone_options
            ]

pub subscribe_option_chart-IsFaithful :
    (platform : Platform) (requested : Option String) (s : Session)
    → IsFaithful s
    → IsFaithful (subscribe_option_chart platform requested s).0
unfolding subscribe_option_chart
subscribe_option_chart-IsFaithful platform requested s h =
    if_holds result-IsFaithful (same_symbol (chart_symbol platform requested) s.option_chart_symbol)
      _ _ (λ _. h)
      λ _.
        if_holds result-IsFaithful (not s.logged_in) _ _ (λ _. h)
          λ _. chart_change-IsFaithful (chart_symbol platform requested) s h
