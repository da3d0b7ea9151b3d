-- ===== src/Prelude/Dict.antt =====
-- `Map` keyed by texts, as an association list in the order of insertion.
use Prim.Native.Nat.{◌+◌}
use Prim.Native.String.{String}
use mathlib.Core.Path.{◌≡◌, refl}
use mathlib.Core.List.{List, [], ◌∷◌}
use mathlib.Core.Option.{Option, none, some}
use native.Mathlib.Omega.{arith}
use nest_js_mega_backend.Prelude.Tests.{if◌then◌else◌}
use nest_js_mega_backend.Prelude.Lists.{length}
use nest_js_mega_backend.Prelude.Members.{◌===◌, text_iff}

abbrev pub Dict {ℓ} : Type ℓ → Type ℓ
Dict V = List (String × V)

module _ {ℓ} {V : Type ℓ} where
  -- `map.get(key)`
  unfoldable pub lookup : String → Dict V → Option V
  lookup k [] = none
  lookup k ((j, v) ∷ m) = if j === k then some v else lookup k m

  -- `map.set(key, value)`
  unfoldable pub insert : String → V → Dict V → Dict V
  insert k v [] = (k, v) ∷ []
  insert k v ((j, w) ∷ m) = if j === k then (k, v) ∷ m else (j, w) ∷ insert k v m

  -- `map.delete(key)`
  unfoldable pub erase : String → Dict V → Dict V
  erase k [] = []
  erase k ((j, w) ∷ m) = if j === k then erase k m else (j, w) ∷ erase k m

  pub lookup-insert :
      (k j : String) (v : V) (m : Dict V)
      → lookup j (insert k v m) ≡ (if k === j then some v else lookup j m)
  unfolding lookup insert
  lookup-insert k j v [] = refl
  lookup-insert k j v ((i, w) ∷ m) =
      ground (arith, text_iff k j, text_iff i k, text_iff i j, lookup-insert k j v m)

  pub lookup-erase :
      (k j : String) (m : Dict V) → lookup j (erase k m) ≡ (if k === j then none else lookup j m)
  unfolding lookup erase
  lookup-erase k j [] = ground arith
  lookup-erase k j ((i, w) ∷ m) =
      ground (arith, text_iff k j, text_iff i k, text_iff i j, lookup-erase k j m)

  -- No key stands twice.
  abbrev pub IsMap : Dict V → Type ℓ
  IsMap [] = Unit
  IsMap ((k, v) ∷ m) = (lookup k m ≡ none) × IsMap m

  pub insert-IsMap : (k : String) (v : V) (m : Dict V) → IsMap m → IsMap (insert k v m)
  unfolding lookup insert
  insert-IsMap k v [] h = (refl, tt)
  insert-IsMap k v ((j, w) ∷ m) h =
      ground (arith, text_iff j k, text_iff k j, insert-IsMap k v m h.1, lookup-insert k j v m)

  pub erase-IsMap : (k : String) (m : Dict V) → IsMap m → IsMap (erase k m)
  unfolding lookup erase
  erase-IsMap k [] h = tt
  erase-IsMap k ((j, w) ∷ m) h =
      ground (arith, text_iff j k, text_iff k j, erase-IsMap k m h.1, lookup-erase k j m)

  pub erase_absent : (k : String) (m : Dict V) → lookup k m ≡ none → erase k m ≡ m
  unfolding lookup erase
  erase_absent k [] e = refl
  erase_absent k ((j, w) ∷ m) e = ground (arith, erase_absent k m)

  pub length-insert_new :
      (k : String) (v : V) (m : Dict V) → lookup k m ≡ none → length (insert k v m) ≡ length m + 1
  unfolding lookup insert
  length-insert_new k v [] e = omega arith
  length-insert_new k v ((j, w) ∷ m) e = ground (arith, length-insert_new k v m)

  pub length-erase :
      (k : String) (v : V) (m : Dict V)
      → IsMap m
      → lookup k m ≡ some v
      → length (erase k m) + 1 ≡ length m
  unfolding lookup erase
  length-erase k v [] h e = cc
  length-erase k v ((j, w) ∷ m) h e =
      ground (arith, text_iff j k, length-erase k v m h.1, erase_absent k m)
