-- ===== src/Streaming/Session/Pins.antt =====
-- The pins of a session: option symbols that stay subscribed while an owner holds them.
use nest_js_mega_backend.Prelude.{
  Bool, true, false, not, ◌&&◌, Option, none, some, List, [], ◌∷◌, map, String, ◌===◌,
  if◌then◌else◌, has, filter,
}
use nest_js_mega_backend.Prelude.Dict.{Dict, lookup, insert, erase}
use nest_js_mega_backend.Streaming.Osi.{Platform}
use nest_js_mega_backend.Streaming.Session.{
  Session, set_add, add_option_subscriptions, unsubscribe_options,
}

-- `set.delete(key)`
abbrev pub set_delete : String → List String → List String
set_delete key set = filter (λ member. not (member === key)) set

-- `this.pinOwners.get(symbol)`, with the empty set that a first pin puts there
abbrev pub owners_of : String → Dict (List String) → List String
owners_of symbol owners = elim (lookup symbol owners) [ none ↦ [] | some held ↦ held ]

-- a pin of a trimmed symbol
unfoldable pub pin_trimmed : String → String → Session → Session
pin_trimmed trimmed owner s =
    let s' = record s {
      pin_owners = insert trimmed (set_add owner (owners_of trimmed s.pin_owners)) s.pin_owners;
    } in
    if has s.pinned_option_symbols trimmed
    then s'
    else (let pinned = record s' {
      pinned_option_symbols = set_add trimmed s.pinned_option_symbols;
    } in
        if has s.current_window_symbols trimmed
        then pinned
        else if s.logged_in
        then record pinned { wire = add_option_subscriptions (trimmed ∷ []) s.wire }
        else pinned)

unfoldable pub pin_option_symbol : Platform → String → String → Session → Session
unfolding pin_trimmed
pin_option_symbol platform symbol owner s =
    let trimmed = platform.trim symbol in if trimmed === "" then s else pin_trimmed trimmed owner s

-- The pin itself goes, once nobody owns it.
unfoldable pub drop_pin : String → Session → Session
drop_pin trimmed s =
    if not (has s.pinned_option_symbols trimmed)
    then s
    else (let dropped = record s {
      pinned_option_symbols = set_delete trimmed s.pinned_option_symbols;
    } in
        if has s.current_window_symbols trimmed
        then dropped
        else if s.logged_in
        then record dropped { wire = unsubscribe_options (trimmed ∷ []) s.wire }
        else dropped)

abbrev pub is_empty : List String → Bool
is_empty [] = true
is_empty (x ∷ xs) = false

-- an unpin of a trimmed symbol, with the owners that the map holds for it
unfoldable pub unpin_held : String → String → (held : Option (List String)) → Session → Session
unfolding drop_pin
unpin_held trimmed owner none s = drop_pin trimmed s
unpin_held trimmed owner (some owners) s =
    let rest = set_delete owner owners in
    if is_empty rest
    then drop_pin trimmed (record s { pin_owners = erase trimmed s.pin_owners })
    else record s { pin_owners = insert trimmed rest s.pin_owners }

unfoldable pub unpin_trimmed : String → String → Session → Session
unfolding unpin_held
unpin_trimmed trimmed owner s = unpin_held trimmed owner (lookup trimmed s.pin_owners) s

unfoldable pub unpin_option_symbol : Platform → String → String → Session → Session
unfolding unpin_trimmed
unpin_option_symbol platform symbol owner s =
    let trimmed = platform.trim symbol in
    if trimmed === "" then s else unpin_trimmed trimmed owner s

-- the trimmed symbols that are not empty, as a set
unfoldable pub wanted_from : Platform → (next symbols : List String) → List String
wanted_from platform next [] = next
wanted_from platform next (symbol ∷ symbols) =
    let trimmed = platform.trim symbol in
    wanted_from platform (if trimmed === "" then next else set_add trimmed next) symbols

unfoldable pub pin_all : Platform → List String → Session → Session
unfolding pin_option_symbol
pin_all platform [] s = s
pin_all platform (symbol ∷ symbols) s =
    pin_all platform symbols (pin_option_symbol platform symbol "account" s)

unfoldable pub unpin_stale : Platform → (next keys : List String) → Session → Session
unfolding unpin_option_symbol
unpin_stale platform next [] s = s
unpin_stale platform next (symbol ∷ symbols) s = unpin_stale platform next symbols (
    if has (owners_of symbol s.pin_owners) "account" && not (has next symbol)
    then unpin_option_symbol platform symbol "account" s
    else s)

unfoldable pub sync_account_option_pins : Platform → List String → Session → Session
unfolding pin_all unpin_stale wanted_from
sync_account_option_pins platform symbols s =
    let next = wanted_from platform [] symbols in
    let pinned = pin_all platform next s in
    unpin_stale platform next (map (λ entry. entry.0) pinned.pin_owners) pinned
