-- ===== src/Streaming/Session/Wanted.antt =====
-- What a session should be subscribed to, and what its requests on the present connection add up to
-- by the streamer's rules: `SUBS` replaces the keys of a service, `ADD` adds to them, `UNSUBS`
-- takes keys away, and a new connection starts with none.
use nest_js_mega_backend.Prelude.{
  ℕ, ◌≡◌, refl, ap, ◌∙◌, Bool, false, not, ◌&&◌, ◌||◌, Option, none, some, List, [], ◌∷◌, ◌++◌,
  String, ◌==◌, ◌===◌, if◌then◌else◌, has, flatten, arith,
}
use nest_js_mega_backend.Streaming.Ladder.Chunks.{chunk_array_lem}
use nest_js_mega_backend.Streaming.Session.{
  Wire, Service, Command, Effect, levelone_options, add, unsubs, opened, is_open, send_request,
  send_chunks, chunks_of, add_option_subscriptions, unsubscribe_options,
}

abbrev number : Service → ℕ
number Service.admin = 0
number Service.levelone_equities = 1
number Service.chart_equity = 2
number Service.chart_options = 3
number Service.levelone_options = 4

-- a command's effect on whether a key is among the keys of its service
abbrev pub apply_command : Command → (named before : Bool) → Bool
apply_command Command.login named before = before
apply_command Command.subs named before = named
apply_command Command.add named before = before || named
apply_command Command.unsubs named before = before && not named

abbrev pub after_request : Service → String → Service → Command → List String → Bool → Bool
after_request service key of command keys before =
    if number service == number of then apply_command command (has keys key) before else before

unfoldable pub is_requested : Service → String → List Effect → Bool
is_requested service key [] = false
is_requested service key (Effect.sent request ∷ log) =
    after_request service key request.service request.command request.keys
      (is_requested service key log)
is_requested service key (Effect.socket_constructed ∷ log) = false
is_requested service key (_ ∷ log) = is_requested service key log

abbrev pub is_symbol : Option String → String → Bool
is_symbol none key = false
is_symbol (some symbol) key = symbol === key

-- What a session should be subscribed to: the quote and the candles of the underlying, the charted
-- option, and of the options the ladder's window and the pins.
unfoldable pub is_wanted :
    Service
    → String
    → (quote_symbol : String) → (option_chart_symbol : Option String) → (window pins : List String)
    → Bool
is_wanted Service.admin key quote chart window pins = false
is_wanted Service.levelone_equities key quote chart window pins = quote === key
is_wanted Service.chart_equity key quote chart window pins = quote === key
is_wanted Service.chart_options key quote chart window pins = is_symbol chart key
is_wanted Service.levelone_options key quote chart window pins = has window key || has pins key

pub requested-send_request :
    (service : Service) (key : String) (of : Service) (command : Command) (keys : List String)
    (w : Wire)
    → w.socket ≡ opened
    → is_requested service key (send_request of command keys w).log
      ≡ after_request service key of command keys (is_requested service key w.log)
unfolding is_requested send_request is_open
requested-send_request service key of command keys w h = rw h refl

pub send_chunks-socket :
    (command : Command) (chunks : List (List String)) (w : Wire)
    → (send_chunks command chunks w).socket ≡ w.socket
unfolding send_chunks send_request
send_chunks-socket command [] w = refl
send_chunks-socket command (chunk ∷ chunks) w =
    send_chunks-socket command chunks (send_request levelone_options command chunk w)

has-append : (xs ys : List String) (key : String) → has (xs ++ ys) key ≡ (has xs key || has ys key)
has-append [] ys key = refl
has-append (x ∷ xs) ys key = ground (arith, has-append xs ys key)

flatten-chunks_of : (symbols : List String) → flatten (chunks_of symbols) ≡ symbols
unfolding chunks_of
flatten-chunks_of symbols =
    let (chunks, e, whole, sizes) = chunk_array_lem symbols 7 in
    ap (λ found. flatten (elim found [ none ↦ [] | some chunks ↦ chunks ])) e ∙ whole

requested-add_chunks :
    (service : Service) (key : String) (chunks : List (List String)) (w : Wire)
    → w.socket ≡ opened
    → is_requested service key (send_chunks add chunks w).log
      ≡ after_request service key levelone_options add
          (flatten chunks)
          (is_requested service key w.log)
unfolding send_chunks send_request
requested-add_chunks service key [] w h = ground arith
requested-add_chunks service key (chunk ∷ chunks) w h =
    let w' = send_request levelone_options add chunk w in
    ground (
      arith,
      requested-add_chunks service key chunks w' h,
      requested-send_request service key levelone_options add chunk w h,
      has-append chunk (flatten chunks) key,
    )

requested-unsubs_chunks :
    (service : Service) (key : String) (chunks : List (List String)) (w : Wire)
    → w.socket ≡ opened
    → is_requested service key (send_chunks unsubs chunks w).log
      ≡ after_request service key levelone_options unsubs
          (flatten chunks)
          (is_requested service key w.log)
unfolding send_chunks send_request
requested-unsubs_chunks service key [] w h = ground arith
requested-unsubs_chunks service key (chunk ∷ chunks) w h =
    let w' = send_request levelone_options unsubs chunk w in
    ground (
      arith,
      requested-unsubs_chunks service key chunks w' h,
      requested-send_request service key levelone_options unsubs chunk w h,
      has-append chunk (flatten chunks) key,
    )

pub requested-add_option_subscriptions :
    (service : Service) (key : String) (symbols : List String) (w : Wire)
    → w.socket ≡ opened
    → is_requested service key (add_option_subscriptions symbols w).log
      ≡ after_request service key levelone_options add symbols (is_requested service key w.log)
unfolding add_option_subscriptions
requested-add_option_subscriptions service key symbols w h =
    requested-add_chunks service key (chunks_of symbols) w h
    ∙ ap
        (λ keys.
          after_request service key levelone_options add keys (is_requested service key w.log))
        (flatten-chunks_of symbols)

pub requested-unsubscribe_options :
    (service : Service) (key : String) (symbols : List String) (w : Wire)
    → w.socket ≡ opened
    → is_requested service key (unsubscribe_options symbols w).log
      ≡ after_request service key levelone_options unsubs symbols (is_requested service key w.log)
unfolding unsubscribe_options
requested-unsubscribe_options service key symbols w h =
    requested-unsubs_chunks service key (chunks_of symbols) w h
    ∙ ap
        (λ keys.
          after_request service key levelone_options unsubs keys (is_requested service key w.log))
        (flatten-chunks_of symbols)

pub add_option_subscriptions-socket :
    (symbols : List String) (w : Wire) → (add_option_subscriptions symbols w).socket ≡ w.socket
unfolding add_option_subscriptions
add_option_subscriptions-socket symbols w = send_chunks-socket add (chunks_of symbols) w

pub unsubscribe_options-socket :
    (symbols : List String) (w : Wire) → (unsubscribe_options symbols w).socket ≡ w.socket
unfolding unsubscribe_options
unsubscribe_options-socket symbols w = send_chunks-socket unsubs (chunks_of symbols) w
