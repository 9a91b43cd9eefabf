-- ===== src/FailureCode.antt =====
-- `validate_failure_code` of outcome.py: a code is empty, or dot-separated lowercase segments.
pub mod Grammar
pub mod Accepted
mod Tests
use rpacore.Base.{
  ℕ, String, Bool, true, false, ◌&&◌, ◌||◌, List, [], ◌∷◌, leb, ◌==◌, codes, if◌then◌else◌,
}
use rpacore.Exceptions.{value_error}
use rpacore.Exec.{Result, require}

abbrev pub dot : ℕ
dot = 46

-- `[a-z]`
abbrev pub is_lower : ℕ → Bool
is_lower c = leb 97 c && leb c 122

-- `[a-z0-9_]`
abbrev pub is_word : ℕ → Bool
is_word c = is_lower c || (leb 48 c && leb c 57) || c == 95

-- Where `[a-z][a-z0-9_]*(?:\.[a-z][a-z0-9_]*)+` stands in the text; the flag says that a dot was
-- seen.
pub data Place : Type 0 where
  at_start in_segment : Bool → Place

unfoldable pub matches_from : Place → List ℕ → Bool
matches_from (at_start seen) [] = false
matches_from (in_segment seen) [] = seen
matches_from (at_start seen) (c ∷ cs) = is_lower c && matches_from (in_segment seen) cs
matches_from (in_segment seen) (c ∷ cs) =
    if c == dot
    then matches_from (at_start true) cs
    else is_word c && matches_from (in_segment seen) cs

-- `_FAILURE_CODE.fullmatch(code) is not None`
unfoldable pub matches_failure_code : List ℕ → Bool
unfolding matches_from
matches_failure_code cs = matches_from (at_start false) cs

abbrev pub is_empty : List ℕ → Bool
is_empty [] = true
is_empty (_ ∷ _) = false

unfoldable pub validate_failure_code : String → Result (Unit {0})
unfolding matches_failure_code
validate_failure_code code =
    require (is_empty (codes code) || matches_failure_code (codes code)) value_error
