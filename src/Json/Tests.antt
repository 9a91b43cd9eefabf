-- ===== src/Json/Tests.antt =====
-- Examples of values: a mapping that holds a number, and one that holds itself.
use rpacore.Base.{◌≡◌, ◌↔◌, true, [], pos}
use rpacore.Exec.{ok}
use rpacore.Json.{Value, int, dict, text, end, field, is_dict, validate_json_object}
use rpacore.Json.Sound.{HasJsonLeaves, IsAcyclic, validate_json_object_iff}

abbrev settings : Value
settings = dict 1 (field (text "retries") (int (pos 3)) end)

validate_json_object_iff_example :
    (validate_json_object settings ≡ ok tt)
    ↔ ((is_dict settings ≡ true) × HasJsonLeaves settings × IsAcyclic [] settings)
validate_json_object_iff_example = validate_json_object_iff settings
