-- ===== src/Streaming/Session/Faithful.antt =====
-- What it is for a session to be subscribed to what it should be, and how requests keep it so.
use nest_js_mega_backend.Prelude.{
  ◌≡◌, refl, sym, ◌∙◌, ap, Bool, true, false, not, ◌&&◌, ◌||◌, Option, List, [], ◌∷◌, ◌++◌, String,
  ◌===◌, text_iff, if_holds, has, arith,
}
use nest_js_mega_backend.Streaming.Session.{
  Session, Wire, Service, Command, levelone_options, Effect, opened, note, add, unsubs, login,
  set_add, add_option_subscriptions, unsubscribe_options,
}
use nest_js_mega_backend.Streaming.Session.Wanted.{
  is_requested, is_wanted, after_request, apply_command, requested-add_option_subscriptions,
  requested-unsubscribe_options, add_option_subscriptions-socket, unsubscribe_options-socket,
}

-- While the session is logged in on an open socket, its requests add up to what is wanted.
unfoldable pub Faithful :
    Wire → (logged_in : Bool) → String → Option String → (window pins : List String) → Type 0
Faithful w logged_in quote chart window pins =
    w.socket ≡ opened
    → logged_in ≡ true
    → (service : Service) (key : String)
    → is_requested service key w.log ≡ is_wanted service key quote chart window pins

abbrev pub IsFaithful : Session → Type 0
IsFaithful s =
    Faithful s.wire s.logged_in s.quote_symbol s.option_chart_symbol s.current_window_symbols
      s.pinned_option_symbols

has-snoc :
    (set : List String) (key k : String) → has (set ++ (key ∷ [])) k ≡ (has set k || key === k)
has-snoc [] key k = ground arith
has-snoc (x ∷ set) key k = ground (arith, has-snoc set key k)

pub has-set_add :
    (key : String) (set : List String) (k : String)
    → has (set_add key set) k ≡ (has set k || key === k)
has-set_add key set k =
    if_holds (λ set'. has set' k ≡ (has set k || key === k)) (has set key) set (set ++ (key ∷ []))
      (λ there. ground (arith, text_iff key k)) (λ _. has-snoc set key k)

module _ (w : Wire) (logged_in : Bool) (quote : String) (chart : Option String) where
  -- A request for options keeps the session faithful if what is wanted changes as it does.
  request_keeps :
      (command : Command) (keys : List String) (w' : Wire) (window pins window' pins' : List String)
      → w'.socket ≡ w.socket
      → ((service : Service) (key : String)
          → w.socket ≡ opened
          → is_requested service key w'.log
            ≡ after_request service key levelone_options command keys
                (is_requested service key w.log))
      → ((key : String)
          → (has window' key || has pins' key)
            ≡ apply_command command (has keys key) (has window key || has pins key))
      → Faithful w logged_in quote chart window pins
      → Faithful w' logged_in quote chart window' pins'
  unfolding Faithful is_wanted
  request_keeps command keys w' window pins window' pins' same sends wants h up on service key =
      let up' = sym same ∙ up in
      elim service
        as (λ service.
          is_requested service key w'.log ≡ is_wanted service key quote chart window' pins') [
            | Service.levelone_options ↦
                sends Service.levelone_options key up'
                ∙ ap (apply_command command (has keys key)) (h up' on Service.levelone_options key)
                ∙ sym (wants key)
            | Service.admin ↦ sends Service.admin key up' ∙ h up' on Service.admin key
            | Service.levelone_equities ↦
                sends Service.levelone_equities key up' ∙ h up' on Service.levelone_equities key
            | Service.chart_equity ↦
                sends Service.chart_equity key up' ∙ h up' on Service.chart_equity key
            | Service.chart_options ↦
                sends Service.chart_options key up' ∙ h up' on Service.chart_options key
          ]

  pub add_keeps :
      (keys window pins window' pins' : List String)
      → ((key : String)
          → (has window' key || has pins' key) ≡ (has window key || has pins key || has keys key))
      → Faithful w logged_in quote chart window pins
      → Faithful (add_option_subscriptions keys w) logged_in quote chart window' pins'
  add_keeps keys window pins window' pins' wants =
      request_keeps add keys (add_option_subscriptions keys w) window pins window' pins'
        (add_option_subscriptions-socket keys w)
        (λ service key. requested-add_option_subscriptions service key keys w) wants

  pub unsubs_keeps :
      (keys window pins window' pins' : List String)
      → ((key : String)
          → (has window' key || has pins' key)
            ≡ ((has window key || has pins key) && not (has keys key)))
      → Faithful w logged_in quote chart window pins
      → Faithful (unsubscribe_options keys w) logged_in quote chart window' pins'
  unsubs_keeps keys window pins window' pins' wants =
      request_keeps unsubs keys (unsubscribe_options keys w) window pins window' pins'
        (unsubscribe_options-socket keys w)
        (λ service key. requested-unsubscribe_options service key keys w) wants

  -- Two ways to write the same set.
  pub same_keeps :
      (window pins window' pins' : List String)
      → ((key : String) → (has window' key || has pins' key) ≡ (has window key || has pins key))
      → Faithful w logged_in quote chart window pins
      → Faithful w logged_in quote chart window' pins'
  same_keeps window pins window' pins' wants =
      request_keeps login [] w window pins window' pins' refl (λ service key up. ground arith) wants

  pub out_keeps :
      (window pins : List String) → logged_in ≡ false → Faithful w logged_in quote chart window pins
  unfolding Faithful
  out_keeps window pins out up on = absurd (cc (out, on))

  -- an entry of the log that is no request and no new connection
  pub note_keeps :
      (effect : Effect) (window pins : List String)
      → ((service : Service) (key : String)
          → is_requested service key (effect ∷ w.log) ≡ is_requested service key w.log)
      → Faithful w logged_in quote chart window pins
      → Faithful (note effect w) logged_in quote chart window pins
  unfolding Faithful
  note_keeps effect window pins silent h up on service key =
      silent service key ∙ h up on service key
