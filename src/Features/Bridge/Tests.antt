-- ===== src/Features/Bridge/Tests.antt =====
-- A flag that the provider and the direct evaluation resolve.

use jou_tak_web.Prelude.{ℕ, String, ◌≡◌, refl, Bool, true, false, Option, none, some, List, [], ◌∷◌}
use jou_tak_web.Values.{Value, str, bool}
use jou_tak_web.Registry.{Site, Spec}
use jou_tak_web.Features.Model.{User, Rule, RuleType, Feature, Group, Context, State}
use jou_tak_web.Features.Preview.{Signer}
use jou_tak_web.Features.Evaluate.{targeting_match, evaluate_flag}
use jou_tak_web.Features.Bridge.{Details}
use jou_tak_web.Features.Request.{IdSigner, build_context}
use jou_tak_web.Features.Bridge.Agrees.{build_context-agrees, fresh_state}

abbrev spec : Spec
spec = record {
  title = "Flag";
  kind = "boolean";
  default_env = none;
  default_fallback = bool false;
  variants = bool true ∷ bool false ∷ [];
  pages = "*" ∷ [];
  sticky = false;
  description = "";
  visual_impact = "";
  rollout_policy = none;
}

abbrev site : Site
site = record { registry = ("flag", spec) ∷ []; setting = λ name. none }

abbrev everyone : Rule
everyone = record {
  pk = 1;
  rule_type = RuleType.everyone;
  value = "true";
  page = "";
  actor_ids = [];
  group_ids = [];
  percentage = none;
  enabled = true;
}

abbrev flag : Feature
flag = record {
  key = "flag";
  kind = "boolean";
  default_value = "false";
  active = true;
  sticky_assignment = false;
  rules = everyone ∷ [];
  overrides = [];
}

abbrev signer : Signer
signer = record { dumps = λ p. ""; loads = λ s. none; utf8_length = λ s. 0 }

abbrev ids : IdSigner
ids = record { dumps_id = λ s. s; loads_id = λ s. some (str s) }

abbrev on : Details
on = record {
  value = bool true;
  reason = some targeting_match;
  variant = some "True";
  error_code = none;
}

abbrev visitor : Context
visitor = record {
  user = some (record { pk = 7; is_staff = false; is_authenticated = true });
  anonymous_id = some "0123456789abcdef0123456789abcdef";
  page = "home";
  request_overrides = some [];
}

build_context-agrees_example :
    evaluate_flag site []
      (λ s. 5)
      (flag ∷ [])
      "flag"
      (build_context site signer ids none
        (some (record { pk = 7; is_staff = false; is_authenticated = true }))
        "ffffffffffffffffffffffffffffffff"
        "0123456789abcdef0123456789abcdef"
        ""
        "home").0
      (fresh_state [])
    ≡ some (bool true, fresh_state [])
unfolding jou_tak_web.Features.Bridge.resolve_details
    jou_tak_web.Features.Bridge.to_openfeature_context build_context
    jou_tak_web.Features.Evaluate.evaluate_definition jou_tak_web.Features.Evaluate.candidate
    jou_tak_web.Prelude.Assoc.lookup jou_tak_web.Features.Rules.db_override
    jou_tak_web.Features.Rules.collect jou_tak_web.Features.Assignments.sticky_assignment
    jou_tak_web.Features.Assignments.sticky_subject jou_tak_web.Features.Evaluate.eval_rules
    jou_tak_web.Features.Rules.rule_matches jou_tak_web.Features.Policy.validated_feature_value
    jou_tak_web.Registry.is_valid_override_value jou_tak_web.Features.Policy.rule_result
    jou_tak_web.Values.normalized jou_tak_web.Prelude.Text.lower
    jou_tak_web.Features.Assignments.persist_assignment
    jou_tak_web.Features.Assignments.update_or_create
    jou_tak_web.Features.Request.extract_or_create_anonymous_id
    jou_tak_web.Features.Bridge.from_openfeature_context
    jou_tak_web.Features.Bridge.get_feature_spec jou_tak_web.Features.Request.is_uuid_hex
    jou_tak_web.Features.Bridge.resolve_flag_details
    jou_tak_web.Features.Request.resolve_optional_user
    jou_tak_web.Features.Evaluate.active_definition jou_tak_web.Features.Evaluate.registry_default
    jou_tak_web.Features.Model.assignment_subject jou_tak_web.Features.Model.has_identity
    jou_tak_web.Features.Model.identity_key jou_tak_web.Features.Model.is_staff
    jou_tak_web.Features.Model.user_id jou_tak_web.Features.Policy.coerce_text
    jou_tak_web.Features.Policy.coerce_value jou_tak_web.Features.Policy.group_id_for
    jou_tak_web.Features.Policy.policy_value_allowed
    jou_tak_web.Features.Policy.required_group_id_for_context
    jou_tak_web.Features.Policy.safe_default jou_tak_web.Features.Preview.can_use_request_overrides
    jou_tak_web.Features.Preview.read_override_cookie
    jou_tak_web.Features.Preview.validated_overrides jou_tak_web.Features.Rules.bucket_percent
    jou_tak_web.Features.Rules.in_some_group jou_tak_web.Features.Rules.parsed_ids
    jou_tak_web.Prelude.Assoc.insert jou_tak_web.Prelude.Text.decimal
    jou_tak_web.Prelude.Text.has_prefix jou_tak_web.Prelude.Text.int_of_text
    jou_tak_web.Prelude.Text.strip jou_tak_web.Registry.canonical_variant_token
    jou_tak_web.Registry.get_default_value jou_tak_web.Registry.get_rollout_policy
    jou_tak_web.Registry.is_staff_preview_allowed jou_tak_web.Registry.is_valid_for
    jou_tak_web.Values.int_of jou_tak_web.Values.shown
build_context-agrees_example =
    build_context-agrees site [] (λ s. 5) (flag ∷ []) signer ids none
      (some (record { pk = 7; is_staff = false; is_authenticated = true }))
      "ffffffffffffffffffffffffffffffff" "0123456789abcdef0123456789abcdef" "" "home" "boolean"
      "flag" (bool false) [] on (fresh_state []) (λ u h. cc) refl refl refl
