-- ===== src/FailureCode/Accepted.antt =====
-- Which failure codes `validate_failure_code` of outcome.py accepts.
use rpacore.Base.{ℕ, ◌≡◌, refl, ◌↔◌, ◌⊎◌, inl, inr, String, true, List, [], ◌∷◌, ◌||◌, codes}
use rpacore.Exceptions.{value_error}
use rpacore.Exec.{require, require_ok, ok}
use rpacore.FailureCode.{is_empty, matches_failure_code, validate_failure_code}
use rpacore.FailureCode.Grammar.{IsFailureCode, matches_failure_code_iff}

-- A failure code is accepted exactly when it is empty or such a text.
pub validate_failure_code_iff :
    (code : String)
    → (validate_failure_code code ≡ ok tt) ↔ ((codes code ≡ []) ⊎ IsFailureCode (codes code))
unfolding validate_failure_code
validate_failure_code_iff code = go (codes code)
  where
    go :
        (cs : List ℕ)
        → (require (is_empty cs || matches_failure_code cs) value_error ≡ ok tt)
          ↔ ((cs ≡ []) ⊎ IsFailureCode cs)
    go [] = (λ h. inl refl, λ h. refl)
    go (c ∷ cs) = (
      λ h. inr ((matches_failure_code_iff (c ∷ cs)).0 ((require_ok _ value_error).0 h)),
      λ h. (require_ok _ value_error).1 (matched h),
    )
      where
        matched : ((c ∷ cs) ≡ []) ⊎ IsFailureCode (c ∷ cs) → matches_failure_code (c ∷ cs) ≡ true
        matched (inl e) = cc
        matched (inr h) = (matches_failure_code_iff (c ∷ cs)).1 h
