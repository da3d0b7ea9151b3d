-- ===== src/Prelude/Members.antt =====
-- Texts as keys: membership in a list of texts, which stands for `Set.has` and `includes`.
use mathlib.Core.Path.{◌≡◌, refl}
use mathlib.Core.Bool.{Bool, true, false, ◌||◌, ◌&&◌}
use mathlib.Core.List.{List, [], ◌∷◌}
use mathlib.Core.Logic.{◌↔◌}
use Prim.Native.String.{String}
use native.Mathlib.Omega.{arith}
use text.Mathlib.Text.{◌==◌ as str_eq}
use text.Mathlib.TextEquality.{eq_iff}
use nest_js_mega_backend.Prelude.Lists.{filter}

infix 50 ◌===◌
abbrev pub ◌===◌ : String → String → Bool
a === b = str_eq a b

pub text_iff : (a b : String) → ((a === b) ≡ true) ↔ (a ≡ b)
text_iff a b = eq_iff a b

abbrev pub has : List String → String → Bool
has [] k = false
has (x ∷ xs) k = x === k || has xs k

-- What a filter keeps of the members, by their text.
pub has-filter :
    (test : String → Bool) (xs : List String) (k : String)
    → has (filter test xs) k ≡ (has xs k && test k)
has-filter test [] k = refl
has-filter test (x ∷ xs) k = ground (arith, eq_iff x k, has-filter test xs k)
