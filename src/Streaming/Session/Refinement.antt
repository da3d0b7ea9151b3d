-- ===== src/Streaming/Session/Refinement.antt =====
-- The session implements its subscriptions: what its requests add up to is what it should be
-- subscribed to, whatever the desk, the bot and the market do on a connection.
use nest_js_mega_backend.Prelude.{
  ℕ, ◌≡◌, refl, ◌∙◌, ap, Bool, not, Option, none, some, List, [], ◌∷◌, String, ◌===◌, text_iff,
  if_holds, has, has-filter, filter, arith, ltb,
}
use nest_js_mega_backend.Prelude.Dict.{lookup}
use nest_js_mega_backend.Streaming.Osi.{
  Platform, UtcDate, format_date_key, schwab_index_quote_symbol,
}
use nest_js_mega_backend.Streaming.Ladder.{resolve_ladder_subscriptions}
use nest_js_mega_backend.Streaming.Ladder.Laws.{resolve_ladder_subscriptions_lem}
use nest_js_mega_backend.Streaming.Session.{
  Session, Service, opened, unsubscribe_options, levelone_equities, chart_equity, levelone_options,
  subs, unsubs, send_request,
}
use nest_js_mega_backend.Streaming.Session.Wanted.{
  is_requested, after_request, requested-send_request, requested-unsubscribe_options,
  unsubscribe_options-socket,
}
use nest_js_mega_backend.Streaming.Session.Faithful.{
  IsFaithful, has-set_add, add_keeps, unsubs_keeps, same_keeps, out_keeps, note_keeps,
}
use nest_js_mega_backend.Streaming.Session.Pins.{
  pin_trimmed, pin_option_symbol, drop_pin, unpin_held, unpin_trimmed, unpin_option_symbol,
  set_delete, is_empty,
}
use nest_js_mega_backend.Streaming.Session.Feed.{
  move_ladder, recenter_ladder, resubscribe, handle_equity_ticks,
}

pub pin_trimmed-IsFaithful :
    (trimmed owner : String) (s : Session) → IsFaithful s → IsFaithful (pin_trimmed trimmed owner s)
unfolding pin_trimmed
pin_trimmed-IsFaithful trimmed owner s h =
    let P = IsFaithful in
    if_holds P (has s.pinned_option_symbols trimmed) _ _ (λ _. h)
      λ fresh.
        if_holds P (has s.current_window_symbols trimmed) _ _
          (λ shown.
            same_keeps s.wire _ _ _ _ _ _ _
              (λ key.
                ground
                  (arith, has-set_add trimmed s.pinned_option_symbols key, text_iff trimmed key))
              h)
          λ hidden.
            if_holds P s.logged_in _ _
              (λ _.
                add_keeps s.wire _ _ _ _ _ _ _ _
                  (λ key. ground (arith, has-set_add trimmed s.pinned_option_symbols key)) h)
              (λ out. out_keeps _ _ _ _ _ _ out)

pub pin_option_symbol-IsFaithful :
    (platform : Platform) (symbol owner : String) (s : Session)
    → IsFaithful s
    → IsFaithful (pin_option_symbol platform symbol owner s)
unfolding pin_option_symbol
pin_option_symbol-IsFaithful platform symbol owner s h =
    if_holds IsFaithful (platform.trim symbol === "") _ _ (λ _. h)
      λ _. pin_trimmed-IsFaithful (platform.trim symbol) owner s h

drop_pin-IsFaithful :
    (trimmed : String) (s : Session) → IsFaithful s → IsFaithful (drop_pin trimmed s)
unfolding drop_pin
drop_pin-IsFaithful trimmed s h =
    let P = IsFaithful in
    let left = has-filter (λ member. not (member === trimmed)) s.pinned_option_symbols in
    if_holds P (not (has s.pinned_option_symbols trimmed)) _ _ (λ _. h)
      λ _.
        if_holds P (has s.current_window_symbols trimmed) _ _
          (λ shown.
            same_keeps s.wire _ _ _ _ _ _ _ (λ key. ground (arith, left key, text_iff key trimmed))
              h)
          λ hidden.
            if_holds P s.logged_in _ _
              (λ _.
                unsubs_keeps s.wire _ _ _ _ _ _ _ _
                  (λ key. ground (arith, left key, text_iff key trimmed, text_iff trimmed key)) h)
              (λ out. out_keeps _ _ _ _ _ _ out)

unpin_held-IsFaithful :
    (trimmed owner : String) (held : Option (List String)) (s : Session)
    → IsFaithful s
    → IsFaithful (unpin_held trimmed owner held s)
unfolding unpin_held
unpin_held-IsFaithful trimmed owner none s h = drop_pin-IsFaithful trimmed s h
unpin_held-IsFaithful trimmed owner (some owners) s h =
    if_holds IsFaithful (is_empty (set_delete owner owners)) _ _
      (λ _. drop_pin-IsFaithful trimmed _ h) (λ _. h)

pub unpin_option_symbol-IsFaithful :
    (platform : Platform) (symbol owner : String) (s : Session)
    → IsFaithful s
    → IsFaithful (unpin_option_symbol platform symbol owner s)
unfolding unpin_option_symbol unpin_trimmed
unpin_option_symbol-IsFaithful platform symbol owner s h =
    if_holds IsFaithful (platform.trim symbol === "") _ _ (λ _. h)
      λ _.
        unpin_held-IsFaithful (platform.trim symbol) owner
          (lookup (platform.trim symbol) s.pin_owners) s h

move_ladder-IsFaithful :
    (nearest : ℕ) (today : String) (window : List String) (s : Session)
    → IsFaithful s
    → IsFaithful (move_ladder nearest today window s)
unfolding move_ladder is_requested
move_ladder-IsFaithful nearest today window s h =
    let moves =
      resolve_ladder_subscriptions window s.current_window_symbols s.pinned_option_symbols in
    let kept : String → Bool = λ key. not (has moves.to_unsub key) in
    let left = has-filter kept s.current_window_symbols in
    let held = has-filter kept s.pinned_option_symbols in
    note_keeps _ _ _ _ _ _ _ (λ service key. refl)
      (add_keeps _ _ _ _ _ _ _ _ _
        (λ key. ground (
          arith,
          left key,
          held key,
          resolve_ladder_subscriptions_lem window s.current_window_symbols s.pinned_option_symbols
              key,
        ))
        (unsubs_keeps s.wire _ _ _ _ _ _ (filter kept s.current_window_symbols)
          (filter kept s.pinned_option_symbols) (λ key. ground (arith, left key, held key)) h))

pub recenter_ladder-IsFaithful :
    (platform : Platform) (date : UtcDate) (spot : ℕ) (s : Session)
    → IsFaithful s
    → IsFaithful (recenter_ladder platform date spot s)
unfolding recenter_ladder
recenter_ladder-IsFaithful platform date spot s h =
    if_holds IsFaithful _ _ _ (λ _. move_ladder-IsFaithful _ (format_date_key date) _ s h) (λ _. h)

pub handle_equity_ticks-IsFaithful :
    (platform : Platform) (date : UtcDate) (ticks : List (Option ℕ)) (s : Session)
    → IsFaithful s
    → IsFaithful (handle_equity_ticks platform date ticks s)
unfolding handle_equity_ticks
handle_equity_ticks-IsFaithful platform date [] s h = h
handle_equity_ticks-IsFaithful platform date (none ∷ ticks) s h =
    handle_equity_ticks-IsFaithful platform date ticks s h
handle_equity_ticks-IsFaithful platform date (some price ∷ ticks) s h =
    handle_equity_ticks-IsFaithful platform date ticks _ (
      if_holds IsFaithful (ltb 0 price) _ _
        (λ _. recenter_ladder-IsFaithful platform date price _ h) (λ _. h))

-- What the requests of `resubscribe` add up to, each by its own.
requested-resubscribe :
    (platform : Platform) (symbol : String) (s : Session) (service : Service) (key : String)
    → s.wire.socket ≡ opened
    → let new = schwab_index_quote_symbol platform symbol ∷ [] in
      let old = s.quote_symbol ∷ [] in
      let dropped =
        filter (λ key. not (has s.pinned_option_symbols key)) s.current_window_symbols in
      is_requested service key (resubscribe platform symbol s).wire.log
      ≡ after_request service key chart_equity subs new (
          after_request service key levelone_equities subs new (
            after_request service key levelone_options unsubs dropped (
              after_request service key chart_equity unsubs old (
                after_request service key levelone_equities unsubs old
                  (is_requested service key s.wire.log)))))
unfolding resubscribe send_request
requested-resubscribe platform symbol s service key up =
    let new = schwab_index_quote_symbol platform symbol ∷ [] in
    let old = s.quote_symbol ∷ [] in
    let dropped : List String =
      filter (λ key. not (has s.pinned_option_symbols key)) s.current_window_symbols in
    let w1 = send_request levelone_equities unsubs old s.wire in
    let w2 = send_request chart_equity unsubs old w1 in
    let w3 = unsubscribe_options dropped w2 in
    let up3 = unsubscribe_options-socket dropped w2 ∙ up in
    let w4 = send_request levelone_equities subs new w3 in
    let e1 = requested-send_request service key levelone_equities unsubs old s.wire up in
    let e2 = requested-send_request service key chart_equity unsubs old w1 up in
    let e3 = requested-unsubscribe_options service key dropped w2 up in
    let e4 = requested-send_request service key levelone_equities subs new w3 up3 in
    let e5 = requested-send_request service key chart_equity subs new w4 up3 in
    e5
    ∙ ap (after_request service key chart_equity subs new) (
        e4
        ∙ ap (after_request service key levelone_equities subs new) (
            e3
            ∙ ap (after_request service key levelone_options unsubs dropped)
                (e2 ∙ ap (after_request service key chart_equity unsubs old) e1)))
