-- ===== src/Base/Text.antt =====
-- Texts that are not empty, the code points of a text, and their lexicographic order.
use quickbite_analytics_serv.Base.Tests.{ltb, ◌==◌, if◌then◌else◌}
use Prim.Native.Nat.{ℕ}
use Prim.Native.Char.{Char, code}
use Prim.Native.String.{String}
use mathlib.Core.Bool.{Bool, true, false}
use mathlib.Core.Path.{◌≡◌, refl}
use text.Mathlib.Text.{◌==◌ as str_eq}
use text.Mathlib.TextEquality.{eq_iff}
use mathlib.Core.List.{List, [], ◌∷◌}

pub str_eq-nonempty : (c : Char) (s : String) → str_eq (String.◌∷◌ c s) "" ≡ false
str_eq-nonempty c s = by_answer (str_eq (String.◌∷◌ c s) "") (eq_iff (String.◌∷◌ c s) "").0
  where
    by_answer : (b : Bool) → (b ≡ true → String.◌∷◌ c s ≡ "") → b ≡ false
    by_answer false h = refl
    by_answer true h = let impossible : String.◌∷◌ c s ≡ "" = h refl in cc

abbrev pub codes : String → List ℕ
codes String.[] = []
codes (String.◌∷◌ c s) = code c ∷ codes s

-- `xs` is before or equal to `ys` in the order of the dictionary.
abbrev pub lex_leb : List ℕ → List ℕ → Bool
lex_leb [] ys = true
lex_leb (x ∷ xs) [] = false
lex_leb (x ∷ xs) (y ∷ ys) =
    let rest = lex_leb xs ys in if ltb x y then true else if x == y then rest else false
