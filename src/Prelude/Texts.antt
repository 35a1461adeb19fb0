-- ===== src/Prelude/Texts.antt =====
-- Texts: equality, membership and position in a slice of texts.
use Prim.Native.String.{String}
use mathlib.Core.Path.{◌≡◌, refl}
use mathlib.Core.Bool.{Bool, true, false, ◌||◌}
use mathlib.Core.List.{List, [], ◌∷◌}
use text.Mathlib.Text.{◌==◌ as str_eq}
use text.Mathlib.TextEquality.{eq_iff}

infix 50 ◌==◌
abbrev pub ◌==◌ : String → String → Bool
a == b = str_eq a b

pub str_eq→eq : (a b : String) → (a == b) ≡ true → a ≡ b
str_eq→eq a b h = (eq_iff a b).0 h

pub str_eq_refl : (a : String) → (a == a) ≡ true
str_eq_refl a = (eq_iff a a).1 refl

-- slices.Contains
abbrev pub contains : List String → String → Bool
contains [] a = false
contains (x ∷ xs) a = x == a || contains xs a
