-- ===== src/Base/Text.antt =====
-- Text: whole texts are native strings, and character tests read their code points.
use Prim.Native.Nat.{ℕ}
use Prim.Native.Char.{code}
use Prim.Native.String.{String}
use mathlib.Core.Path.{◌≡◌, refl}
use mathlib.Core.Logic.{◌↔◌}
use mathlib.Core.Bool.{Bool, true, false, ◌&&◌, ◌||◌}
use mathlib.Core.List.{List, [], ◌∷◌}
use text.Mathlib.Text.{◌==◌ as text_eq}
use text.Mathlib.TextEquality.{eq_iff}
use rpacore.Base.Tests.{leb, ltb, ◌==◌, if◌then◌else◌}
use native.Mathlib.Omega.{arith}

-- Python's `==` on two `str` values.
abbrev pub str_eq : String → String → Bool
str_eq a b = text_eq a b

pub str_eq_iff : (a b : String) → (str_eq a b ≡ true) ↔ (a ≡ b)
str_eq_iff a b = eq_iff a b

-- The code points of a text.
abbrev pub codes : String → List ℕ
codes String.[] = []
codes (String.◌∷◌ c s) = code c ∷ codes s

-- The characters that `str.strip()` removes: those with `str.isspace()`.
unfoldable pub is_space : ℕ → Bool
is_space c =
    (leb 9 c && leb c 13)
    || (leb 28 c && leb c 32)
    || c == 0x85
    || c == 0xa0
    || c == 0x1680
    || (leb 0x2000 c && leb c 0x200a)
    || c == 0x2028
    || c == 0x2029
    || c == 0x202f
    || c == 0x205f
    || c == 0x3000

pub all_space : List ℕ → Bool
all_space [] = true
all_space (c ∷ cs) = is_space c && all_space cs

-- `not text.strip()`
unfoldable pub is_blank : String → Bool
unfolding is_space all_space
is_blank s = all_space (codes s)

-- The order of stored texts, by code points.
unfoldable pub text_before : List ℕ → List ℕ → Bool
text_before [] ys = true
text_before (x ∷ xs) [] = false
text_before (x ∷ xs) (y ∷ ys) = let rest = text_before xs ys in if x == y then rest else ltb x y

pub text_before-total : (xs ys : List ℕ) → text_before xs ys ≡ false → text_before ys xs ≡ true
unfolding text_before
text_before-total [] ys h = cc
text_before-total (x ∷ xs) [] h = refl
text_before-total (x ∷ xs) (y ∷ ys) h = ground (arith, h, text_before-total xs ys)

pub text_before_trans :
    (xs ys zs : List ℕ)
    → text_before xs ys ≡ true
    → text_before ys zs ≡ true
    → text_before xs zs ≡ true
unfolding text_before
text_before_trans [] ys zs h k = refl
text_before_trans (x ∷ xs) [] zs h k = cc
text_before_trans (x ∷ xs) (y ∷ ys) [] h k = cc
text_before_trans (x ∷ xs) (y ∷ ys) (z ∷ zs) h k = ground (arith, h, k, text_before_trans xs ys zs)
