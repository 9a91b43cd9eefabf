-- ===== src/FailureCode/Tests.antt =====
-- Examples of failure codes.
use rpacore.Base.{◌≡◌, ◌↔◌, ◌⊎◌, [], codes}
use rpacore.Exec.{ok}
use rpacore.FailureCode.{validate_failure_code}
use rpacore.FailureCode.Grammar.{IsFailureCode}
use rpacore.FailureCode.Accepted.{validate_failure_code_iff}

validate_failure_code_iff_example :
    (validate_failure_code "rpacore.system" ≡ ok tt)
    ↔ ((codes "rpacore.system" ≡ []) ⊎ IsFailureCode (codes "rpacore.system"))
validate_failure_code_iff_example = validate_failure_code_iff "rpacore.system"
