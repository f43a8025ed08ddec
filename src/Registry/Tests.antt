-- ===== src/Registry/Tests.antt =====
-- The program's registry passes its start-up check, and the check's guarantee at one of its entries.
use jou_tak_web.Prelude.{◌≡◌, refl, none, some}
use jou_tak_web.Prelude.Assoc.{lookup}
use jou_tak_web.Prelude.Text.{lower, strip}
use jou_tak_web.Values.{str, shown, normalized}
use jou_tak_web.Registry.{
  Site, Spec, canonical_variant_token, get_default_value, get_rollout_policy,
}
use jou_tak_web.Registry.Catalogue.{feature_registry, design_rollout_policy, design_spec}
use jou_tak_web.Registry.Validation.{validate_registry, guarded_keys}
use jou_tak_web.Registry.Laws.{IsFailClosed, validate_registry-IsFailClosed}

-- The registry of the program, where no setting is there.
abbrev production : Site
unfolding feature_registry
production = record { registry = feature_registry; setting = λ name. none }

abbrev header_spec : Spec
header_spec =
    design_spec "Шапка сайта" "*" "Переключает общую шапку сайта."
      "Заменяет шапку на продуктовых страницах." design_rollout_policy

production_is_valid : validate_registry (guarded_keys production) production ≡ none
unfolding validate_registry lower strip shown normalized lookup canonical_variant_token
    get_default_value get_rollout_policy feature_registry
production_is_valid = refl

header_registered : lookup "site_header_version" production.registry ≡ some header_spec
unfolding lookup feature_registry
header_registered = refl

header_default : get_default_value production "site_header_version" ≡ some (str "legacy")
unfolding lookup feature_registry get_default_value
header_default = refl

validate_registry-IsFailClosed_example :
    IsFailClosed header_spec design_rollout_policy (str "legacy") (str "v2")
validate_registry-IsFailClosed_example =
    validate_registry-IsFailClosed (guarded_keys production) production "site_header_version"
      header_spec (str "legacy") (str "v2") production_is_valid header_registered header_default
      refl
