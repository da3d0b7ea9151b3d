-- ===== src/Streaming/Session/PinLaws.antt =====
-- Who owns which pin after a pin, an unpin and a sync with the account.
use mathlib.Core.Path.{subst⁻¹}
use nest_js_mega_backend.Prelude.{
  ◌≡◌, refl, ◌∙◌, ap, Bool, true, false, not, ◌&&◌, ◌||◌, Option, none, some, List, [], ◌∷◌, map,
  String, ◌===◌, text_iff, if◌then◌else◌, if_holds, is_some, has, has-filter, arith, All,
  All-append, ◌++◌, inl, inr, Option-cases,
}
use nest_js_mega_backend.Prelude.Dict.{Dict, lookup, insert, erase, lookup-insert, lookup-erase}
use nest_js_mega_backend.Streaming.Osi.{Platform}
use nest_js_mega_backend.Streaming.Session.{Session, set_add}
use nest_js_mega_backend.Streaming.Session.Faithful.{has-set_add}
use nest_js_mega_backend.Streaming.Session.Pins.{
  set_delete, owners_of, is_empty, pin_trimmed, pin_option_symbol, drop_pin, unpin_held,
  unpin_trimmed, unpin_option_symbol, wanted_from, pin_all, unpin_stale, sync_account_option_pins,
}

abbrev pub owns : String → String → Dict (List String) → Bool
owns key owner owners = has (owners_of key owners) owner

pin_trimmed-pin_owners :
    (trimmed owner : String) (s : Session)
    → (pin_trimmed trimmed owner s).pin_owners
      ≡ insert trimmed (set_add owner (owners_of trimmed s.pin_owners)) s.pin_owners
unfolding pin_trimmed
pin_trimmed-pin_owners trimmed owner s = ground arith

drop_pin-pin_owners :
    (trimmed : String) (s : Session) → (drop_pin trimmed s).pin_owners ≡ s.pin_owners
unfolding drop_pin
drop_pin-pin_owners trimmed s = ground arith

owners_of-insert :
    (key trimmed : String) (held : List String) (owners : Dict (List String))
    → owners_of key (insert trimmed held owners)
      ≡ (if trimmed === key then held else owners_of key owners)
owners_of-insert key trimmed held owners = ground (arith, lookup-insert trimmed key held owners)

-- A pin adds its owner to the owners of its symbol, and nothing else.
owns-pin_trimmed :
    (key by trimmed owner : String) (s : Session)
    → owns key by (pin_trimmed trimmed owner s).pin_owners
      ≡ (owns key by s.pin_owners || (trimmed === key && owner === by))
owns-pin_trimmed key by trimmed owner s =
    ap (owns key by) (pin_trimmed-pin_owners trimmed owner s)
    ∙ ap (λ held. has held by) (owners_of-insert key trimmed _ s.pin_owners)
    ∙ ground (arith, has-set_add owner (owners_of trimmed s.pin_owners) by, text_iff trimmed key)

-- the owners after an unpin
abbrev owners_left :
    String → String → Dict (List String) → Option (List String) → Dict (List String)
owners_left trimmed owner owners none = owners
owners_left trimmed owner owners (some held) =
    let rest = set_delete owner held in
    if is_empty rest then erase trimmed owners else insert trimmed rest owners

unpin_held-pin_owners :
    (trimmed owner : String) (held : Option (List String)) (s : Session)
    → (unpin_held trimmed owner held s).pin_owners ≡ owners_left trimmed owner s.pin_owners held
unfolding unpin_held
unpin_held-pin_owners trimmed owner none s = drop_pin-pin_owners trimmed s
unpin_held-pin_owners trimmed owner (some held) s =
    ground
      (arith, drop_pin-pin_owners trimmed (record s { pin_owners = erase trimmed s.pin_owners }))

has-is_empty : (held : List String) (by : String) → is_empty held ≡ true → has held by ≡ false
has-is_empty [] by e = refl
has-is_empty (x ∷ held) by e = absurd (ground arith)

owns-owners_left :
    (key by trimmed owner : String) (owners : Dict (List String))
    → owns key by (owners_left trimmed owner owners (lookup trimmed owners))
      ≡ (owns key by owners && not (trimmed === key && owner === by))
owns-owners_left key by trimmed owner owners = elim (Option-cases (lookup trimmed owners)) [
  | inl nobody ↦ rw nobody (ground (arith, text_iff trimmed key))
  | inr (held, found) ↦ rw found (
      ground (
        arith,
        has-filter (λ member. not (member === owner)) held by,
        has-is_empty (set_delete owner held) by,
        lookup-insert trimmed key (set_delete owner held) owners,
        lookup-erase trimmed key owners,
        text_iff trimmed key,
        text_iff owner by,
        text_iff by owner,
      ))
]

owns-unpin_trimmed :
    (key by trimmed owner : String) (s : Session)
    → owns key by (unpin_trimmed trimmed owner s).pin_owners
      ≡ (owns key by s.pin_owners && not (trimmed === key && owner === by))
unfolding unpin_trimmed
owns-unpin_trimmed key by trimmed owner s =
    ap (owns key by) (unpin_held-pin_owners trimmed owner (lookup trimmed s.pin_owners) s)
    ∙ owns-owners_left key by trimmed owner s.pin_owners

-- What is known of the platform and of the keys: a trimmed text stays as it is under `trim`, and
-- every key is trimmed and not empty.
abbrev pub IsTrimmed : Platform → String → Type 0
IsTrimmed platform key = (platform.trim key ≡ key) × ((key === "") ≡ false)

abbrev pub KeysTrimmed : Platform → Dict (List String) → Type 0
KeysTrimmed platform owners = All (λ entry. IsTrimmed platform entry.0) owners

wanted_from-All :
    (platform : Platform) (next symbols : List String)
    → ((text : String) → platform.trim (platform.trim text) ≡ platform.trim text)
    → All (IsTrimmed platform) next
    → All (IsTrimmed platform) (wanted_from platform next symbols)
unfolding wanted_from
wanted_from-All platform next [] trims h = h
wanted_from-All platform next (symbol ∷ symbols) trims h =
    let trimmed = platform.trim symbol in
    wanted_from-All platform (if trimmed === "" then next else set_add trimmed next) symbols trims (
      if_holds (All (IsTrimmed platform)) (trimmed === "") next (set_add trimmed next) (λ _. h)
        (λ full.
          if_holds (All (IsTrimmed platform)) (has next trimmed) next (next ++ (trimmed ∷ []))
            (λ _. h)
            (λ _.
              All-append (IsTrimmed platform) next (trimmed ∷ []) h ((trims symbol, full), tt))))

insert-KeysTrimmed :
    (platform : Platform) (key : String) (held : List String) (owners : Dict (List String))
    → IsTrimmed platform key
    → KeysTrimmed platform owners
    → KeysTrimmed platform (insert key held owners)
unfolding insert
insert-KeysTrimmed platform key held [] k h = (k, tt)
insert-KeysTrimmed platform key held ((j, v) ∷ owners) k h =
    if_holds (KeysTrimmed platform) (j === key) ((key, held) ∷ owners)
      ((j, v) ∷ insert key held owners) (λ _. (k, h.1))
      (λ _. (h.0, insert-KeysTrimmed platform key held owners k h.1))

pin_trimmed_at :
    (platform : Platform) (symbol owner : String) (s : Session)
    → IsTrimmed platform symbol
    → pin_option_symbol platform symbol owner s ≡ pin_trimmed symbol owner s
unfolding pin_option_symbol
pin_trimmed_at platform symbol owner s (same, full) = rw (same, full) refl

unpin_trimmed_at :
    (platform : Platform) (symbol owner : String) (s : Session)
    → IsTrimmed platform symbol
    → unpin_option_symbol platform symbol owner s ≡ unpin_trimmed symbol owner s
unfolding unpin_option_symbol
unpin_trimmed_at platform symbol owner s (same, full) = rw (same, full) refl

owns-pin_all :
    (platform : Platform) (symbols : List String) (key by : String) (s : Session)
    → All (IsTrimmed platform) symbols
    → owns key by (pin_all platform symbols s).pin_owners
      ≡ (owns key by s.pin_owners || (has symbols key && "account" === by))
unfolding pin_all
owns-pin_all platform [] key by s h = ground arith
owns-pin_all platform (symbol ∷ symbols) key by s h =
    ap (λ t. owns key by (pin_all platform symbols t).pin_owners)
      (pin_trimmed_at platform symbol "account" s h.0)
    ∙ owns-pin_all platform symbols key by (pin_trimmed symbol "account" s) h.1
    ∙ ground (arith, owns-pin_trimmed key by symbol "account" s)

pin_all-KeysTrimmed :
    (platform : Platform) (symbols : List String) (s : Session)
    → All (IsTrimmed platform) symbols
    → KeysTrimmed platform s.pin_owners
    → KeysTrimmed platform (pin_all platform symbols s).pin_owners
unfolding pin_all
pin_all-KeysTrimmed platform [] s h k = k
pin_all-KeysTrimmed platform (symbol ∷ symbols) s h k =
    pin_all-KeysTrimmed platform symbols (pin_option_symbol platform symbol "account" s) h.1 (
      subst⁻¹ (KeysTrimmed platform)
        (ap (λ t. t.pin_owners) (pin_trimmed_at platform symbol "account" s h.0)
          ∙ pin_trimmed-pin_owners symbol "account" s)
        (insert-KeysTrimmed platform symbol _ s.pin_owners h.0 k))

-- one round of the loop over the keys
owns-unpin_one :
    (platform : Platform) (next : List String) (symbol key by : String) (s : Session)
    → IsTrimmed platform symbol
    → let t =
        if owns symbol "account" s.pin_owners && not (has next symbol)
        then unpin_option_symbol platform symbol "account" s
        else s in
      owns key by t.pin_owners
      ≡ (owns key by s.pin_owners && not ("account" === by && symbol === key && not (has next key)))
owns-unpin_one platform next symbol key by s h =
    if_holds
      (λ t. owns key by t.pin_owners ≡ (
        owns key by s.pin_owners && not ("account" === by && symbol === key && not (has next key))))
      (owns symbol "account" s.pin_owners && not (has next symbol))
      (unpin_option_symbol platform symbol "account" s) s
      (λ stale.
        ap (λ t. owns key by t.pin_owners) (unpin_trimmed_at platform symbol "account" s h)
        ∙ owns-unpin_trimmed key by symbol "account" s
        ∙ ground (arith, stale, text_iff symbol key))
      (λ kept. ground (arith, kept, text_iff symbol key, text_iff "account" by))

owns-unpin_stale :
    (platform : Platform) (next keys : List String) (key by : String) (s : Session)
    → All (IsTrimmed platform) keys
    → owns key by (unpin_stale platform next keys s).pin_owners
      ≡ (owns key by s.pin_owners && not ("account" === by && has keys key && not (has next key)))
unfolding unpin_stale
owns-unpin_stale platform next [] key by s h = ground arith
owns-unpin_stale platform next (symbol ∷ keys) key by s h =
    let t =
      if owns symbol "account" s.pin_owners && not (has next symbol)
      then unpin_option_symbol platform symbol "account" s
      else s in
    ground (
      arith,
      owns-unpin_stale platform next keys key by t h.1,
      owns-unpin_one platform next symbol key by s h.0,
    )

has-keys :
    (key : String) (owners : Dict (List String))
    → has (map (λ entry. entry.0) owners) key ≡ is_some (lookup key owners)
unfolding lookup
has-keys key [] = refl
has-keys key ((j, held) ∷ owners) = ground (arith, has-keys key owners)

keys-All :
    (platform : Platform) (owners : Dict (List String))
    → KeysTrimmed platform owners
    → All (IsTrimmed platform) (map (λ entry. entry.0) owners)
keys-All platform [] h = tt
keys-All platform (entry ∷ owners) h = (h.0, keys-All platform owners h.1)

owns_keyed :
    (key by : String) (owners : Dict (List String))
    → owns key by owners ≡ true
    → is_some (lookup key owners) ≡ true
owns_keyed key by owners h = ground arith

-- A sync with the account leaves every owner but the account as it was, and makes the account the
-- owner of exactly the trimmed symbols that are not empty, if all pinned keys are trimmed and not
-- empty and what `trim` returns is trimmed.
pub sync_account_option_pins_lem :
    (platform : Platform) (symbols : List String) (s : Session) (key by : String)
    → ((text : String) → platform.trim (platform.trim text) ≡ platform.trim text)
    → KeysTrimmed platform s.pin_owners
    → let after = (sync_account_option_pins platform symbols s).pin_owners in
      (owns key "account" after ≡ has (wanted_from platform [] symbols) key)
      × ((by === "account") ≡ false → owns key by after ≡ owns key by s.pin_owners)
unfolding sync_account_option_pins
sync_account_option_pins_lem platform symbols s key by trims h =
    let next = wanted_from platform [] symbols in
    let pinned = pin_all platform next s in
    let trimmed = wanted_from-All platform [] symbols trims tt in
    let keys = map (λ entry. entry.0) pinned.pin_owners in
    let fixed =
      keys-All platform pinned.pin_owners (pin_all-KeysTrimmed platform next s trimmed h) in
    (
      ground (
        arith,
        owns-unpin_stale platform next keys key "account" pinned fixed,
        owns-pin_all platform next key "account" s trimmed,
        has-keys key pinned.pin_owners,
        owns_keyed key "account" pinned.pin_owners,
        text_iff "account" "account",
      ),
      λ other. ground (
        arith,
        owns-unpin_stale platform next keys key by pinned fixed,
        owns-pin_all platform next key by s trimmed,
        text_iff "account" by,
        text_iff by "account",
      ),
    )
