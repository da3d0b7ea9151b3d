-- ===== src/Prelude/Text.antt =====
-- Texts as lists of code points, the white space of `\s` and `trim`, and decimal digits.
use Prim.Native.Nat.{ℕ}
use Prim.Native.Char.{code}
use Prim.Native.String.{String}
use mathlib.Core.Bool.{Bool, true, false, ◌&&◌, ◌||◌, not}
use mathlib.Core.List.{List, [], ◌∷◌, ◌++◌}
use nest_js_mega_backend.Prelude.Tests.{leb, ◌==◌}
use nest_js_mega_backend.Prelude.Lists.{filter, replicate}

abbrev pub codes : String → List ℕ
codes String.[] = []
codes (String.◌∷◌ c s) = code c ∷ codes s

abbrev pub is_space : ℕ → Bool
is_space c =
    c == 32
    || (leb 9 c && leb c 13)
    || c == 160
    || c == 5760
    || (leb 8192 c && leb c 8202)
    || c == 8232
    || c == 8233
    || c == 8239
    || c == 8287
    || c == 12288
    || c == 65279

abbrev pub is_digit : ℕ → Bool
is_digit c = leb 48 c && leb c 57

-- `text.replace(/\s+/g, '')`
abbrev pub strip_spaces : List ℕ → List ℕ
strip_spaces = filter (λ c. not (is_space c))

-- The classes of the pattern, one after the other from the start of the text.
abbrev matches_here : List (ℕ → Bool) → List ℕ → Bool
matches_here [] cs = true
matches_here (p ∷ ps) [] = false
matches_here (p ∷ ps) (c ∷ cs) = p c && matches_here ps cs

abbrev pub matches_anywhere : List (ℕ → Bool) → List ℕ → Bool
matches_anywhere ps [] = matches_here ps []
matches_anywhere ps (c ∷ cs) = matches_here ps (c ∷ cs) || matches_anywhere ps cs

-- `/[0-9]{6}R[0-9]{8}/`, with the letters that `is_right` takes for R
abbrev pub osi_pattern : (ℕ → Bool) → List (ℕ → Bool)
osi_pattern is_right = replicate 6 is_digit ++ (is_right ∷ replicate 8 is_digit)
