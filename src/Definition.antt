-- ===== src/Definition.antt =====
-- `validate_definition_identity` of _definition.py.
use mathlib.Core.List.{reverse}
use rpacore.Base.{
  ℕ, String, Bool, true, false, not, ◌&&◌, ◌||◌, List, [], ◌∷◌, Option, none, some, leb, ◌==◌, any,
  length, codes, is_space, if◌then◌else◌,
}
use rpacore.Exceptions.{definition_identity}
use rpacore.Exec.{Result, err, and_then, require}

abbrev pub max_definition_identity_length : ℕ
max_definition_identity_length = 255

unfoldable pub lstrip : List ℕ → List ℕ
lstrip [] = []
lstrip (c ∷ cs) = let rest = lstrip cs in if is_space c then rest else c ∷ cs

-- `text.strip()`
unfoldable pub strip : List ℕ → List ℕ
unfolding lstrip
strip cs = reverse (lstrip (reverse (lstrip cs)))

unfoldable pub same_codes : List ℕ → List ℕ → Bool
same_codes [] [] = true
same_codes (x ∷ xs) (y ∷ ys) = x == y && same_codes xs ys
same_codes _ _ = false

-- `unicodedata.category(character) == "Cc"`
abbrev pub is_control : ℕ → Bool
is_control c = leb c 31 || (leb 127 c && leb c 159)

unfoldable pub validate_identity_codes : List ℕ → Bool → Result (Unit {0})
unfolding strip same_codes
validate_identity_codes [] required = require (not required) definition_identity
validate_identity_codes (c ∷ cs) required =
    and_then (require (same_codes (c ∷ cs) (strip (c ∷ cs))) definition_identity) (
      and_then (require (leb (length (c ∷ cs)) max_definition_identity_length) definition_identity)
        (require (not (any is_control (c ∷ cs))) definition_identity))

-- `none` is a value that is no text.
unfoldable pub validate_definition_identity : Option String → Bool → Result (Unit {0})
unfolding validate_identity_codes
validate_definition_identity none required = err definition_identity
validate_definition_identity (some value) required = validate_identity_codes (codes value) required
