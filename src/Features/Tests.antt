-- ===== src/Features/Tests.antt =====
-- The evaluation of flags at concrete contexts.
use mathlib.Core.List.{Memᴰ}
use jou_tak_web.Prelude.{
  ℕ, String, ◌≡◌, ◌≢◌, refl, true, false, none, some, List, [], ◌∷◌, arith, All, find, eq_iff,
}
use jou_tak_web.Prelude.Assoc.{Dict, lookup, insert}
use jou_tak_web.Prelude.Text.{lower, strip, decimal, int_of_text}
use jou_tak_web.Values.{Value, str, bool, shown, normalized, int_of}
use jou_tak_web.Registry.{
  Site, canonical_variant_token, get_default_value, get_rollout_policy, is_valid_override_value,
}
use jou_tak_web.Registry.Catalogue.{
  feature_registry, design_rollout_policy, design_tester_group_slug,
}
use jou_tak_web.Features.Model.{
  RuleType, OverrideScope, Rule, Override, Feature, Group, State, Context, Assignment, user_id,
  is_staff, assignment_subject, has_identity, identity_key,
}
use jou_tak_web.Features.Rules.{
  rule_matches, db_override, bucket_percent, parsed_ids, in_some_group, collect,
}
use jou_tak_web.Features.Rules.Rollout.{
  IsOwn, rule_matches_mono, rule_matches-ends, db_override-own,
}
use jou_tak_web.Features.Policy.{
  policy_value_allowed, validated_feature_value, coerce_value, coerce_text, rule_result,
  required_group_id_for_context, group_id_for,
}
use jou_tak_web.Features.Grants.{IsCoherent}
use jou_tak_web.Features.Assignments.{
  is_assignment, sticky_subject, sticky_assignment, persist_assignment,
}
use jou_tak_web.Features.Assignments.Laws.{IsUnique, persist_assignment_lem}
use jou_tak_web.Features.Evaluate.{
  candidate, eval_rules, evaluate_definition, evaluate_many, evaluate_flag, active_definition,
  registry_default,
}
use jou_tak_web.Registry.{is_staff_preview_allowed}
use jou_tak_web.Features.Model.{User}
use jou_tak_web.Features.Preview.{
  Signer, cookie, preview_payload, validated_overrides, can_use_request_overrides,
  set_override_cookie, read_override_cookie,
}
use jou_tak_web.Features.Preview.RoundTrip.{read_override_cookie-set}
use jou_tak_web.Features.Evaluate.Origin.{Origin, evaluate_definition-Origin}
use jou_tak_web.Features.Evaluate.Guard.{MaySee, evaluate_definition-MaySee}
use jou_tak_web.Features.Evaluate.Testers.{IsMember, design_flag-IsMember}
use jou_tak_web.Features.Evaluate.Values.{evaluate_many-default}

abbrev production : Site
unfolding feature_registry
production = record { registry = feature_registry; setting = λ name. none }

abbrev testers : List Group
testers = record { pk = 4; slug = design_tester_group_slug; members = 7 ∷ [] } ∷ []

abbrev tester : Context
tester = record {
  user = some (record { pk = 7; is_staff = false; is_authenticated = true });
  anonymous_id = none;
  page = "joutak";
  request_overrides = none;
}

abbrev digest : String → ℕ
digest payload = 42

abbrev tester_rule : Rule
tester_rule = record {
  pk = 1;
  rule_type = RuleType.group;
  value = "v2";
  page = "";
  actor_ids = [];
  group_ids = str "4" ∷ [];
  percentage = none;
  enabled = true;
}

abbrev header : Feature
header = record {
  key = "site_header_version";
  kind = "variant";
  default_value = "legacy";
  active = true;
  sticky_assignment = false;
  rules = tester_rule ∷ [];
  overrides = [];
}

abbrev empty_state : State
empty_state = record { assignments = []; required_group_ids = [] }

empty_state-IsCoherent : IsCoherent testers tester empty_state
unfolding lookup
empty_state-IsCoherent = record { at_slug = λ slug uid id u e. cc }

tester_sees_v2 :
    (evaluate_definition production testers digest header tester empty_state).0.value ≡ str "v2"
unfolding evaluate_definition candidate eval_rules rule_matches parsed_ids in_some_group user_id
    is_staff policy_value_allowed validated_feature_value is_valid_override_value get_rollout_policy
    lookup feature_registry canonical_variant_token lower strip shown normalized coerce_value
    coerce_text rule_result required_group_id_for_context group_id_for decimal int_of_text
    db_override collect sticky_subject sticky_assignment persist_assignment assignment_subject
    insert get_default_value int_of
tester_sees_v2 = refl

shown_to_tester :
    canonical_variant_token
      (evaluate_definition production testers digest header tester empty_state).0.value
    ≡ "v2"
unfolding canonical_variant_token lower strip
shown_to_tester = rw tester_sees_v2 refl

header_policy : get_rollout_policy production "site_header_version" ≡ some design_rollout_policy
unfolding get_rollout_policy lookup feature_registry
header_policy = refl

tester_is_not_staff : is_staff tester ≡ false
unfolding is_staff
tester_is_not_staff = refl

design_flag-IsMember_example : IsMember testers design_tester_group_slug tester
design_flag-IsMember_example =
    design_flag-IsMember production testers digest header tester empty_state empty_state-IsCoherent
      header_policy tester_is_not_staff shown_to_tester

v2-ne-legacy_here : canonical_variant_token (str "v2") ≢ canonical_variant_token (str "legacy")
unfolding canonical_variant_token lower strip
v2-ne-legacy_here = ground (arith, eq_iff "v2" "legacy")

shown_token :
    canonical_variant_token
      (evaluate_definition production testers digest header tester empty_state).0.value
    ≡ canonical_variant_token (str "v2")
shown_token = rw tester_sees_v2 refl

evaluate_definition-MaySee_example :
    MaySee production testers digest header tester empty_state design_rollout_policy
      (evaluate_definition production testers digest header tester empty_state).0.value
evaluate_definition-MaySee_example =
    evaluate_definition-MaySee production testers digest header tester empty_state
      design_rollout_policy (str "v2") (str "legacy") empty_state-IsCoherent header_policy refl refl
      v2-ne-legacy_here shown_token

evaluate_definition-Origin_example :
    Origin production testers digest header tester empty_state
      (evaluate_definition production testers digest header tester empty_state).0.value
evaluate_definition-Origin_example =
    evaluate_definition-Origin production testers digest header tester empty_state
      empty_state-IsCoherent

abbrev asked : List String
asked = "site_header_version" ∷ "profile_personalization_enforce" ∷ "no_such_flag" ∷ []

abbrev answers : Dict Value
answers = insert "no_such_flag" (bool false) (
    insert "profile_personalization_enforce" (bool false)
      (insert "site_header_version" (str "v2") []))

enforce_inactive : active_definition (header ∷ []) "profile_personalization_enforce" ≡ none
unfolding active_definition
enforce_inactive = refl

enforce_default :
    registry_default production "profile_personalization_enforce" ≡ some (some (bool false))
unfolding registry_default lookup feature_registry get_default_value coerce_value coerce_text
    normalized shown lower strip
enforce_default = refl

abbrev cached_state : State
cached_state = record {
  assignments = [];
  required_group_ids = insert design_tester_group_slug (some 4) [];
}

flags_of_tester :
    evaluate_many production testers digest (header ∷ []) tester asked [] empty_state
    ≡ some (answers, cached_state)
unfolding evaluate_many evaluate_flag active_definition registry_default evaluate_definition
    candidate eval_rules rule_matches parsed_ids in_some_group user_id is_staff policy_value_allowed
    validated_feature_value is_valid_override_value get_rollout_policy lookup feature_registry
    canonical_variant_token lower strip shown normalized coerce_value coerce_text rule_result
    required_group_id_for_context group_id_for decimal int_of_text db_override collect
    sticky_subject sticky_assignment persist_assignment assignment_subject insert get_default_value
    int_of
flags_of_tester = refl

evaluate_many-default_example : lookup "profile_personalization_enforce" answers ≡ some (bool false)
evaluate_many-default_example =
    evaluate_many-default production testers digest (header ∷ []) tester asked [] empty_state
      "profile_personalization_enforce" (some (bool false)) answers cached_state enforce_inactive
      enforce_default flags_of_tester

abbrev sticky_interstitial : Feature
sticky_interstitial = record header {
  key = "profile_personalization_interstitial";
  kind = "boolean";
  sticky_assignment = true;
}

abbrev old_row : Assignment
old_row = record {
  feature_key = "profile_personalization_ui";
  subject_type = "user";
  subject_key = "7";
  page = "joutak";
  value = "false";
}

abbrev stored_state : State
stored_state = record { assignments = old_row ∷ []; required_group_ids = [] }

tester_subject : sticky_subject production sticky_interstitial tester ≡ some ("user", "7")
unfolding sticky_subject get_rollout_policy lookup feature_registry assignment_subject user_id
    decimal
tester_subject = refl

persist_assignment_lem_example :
    (sticky_assignment production sticky_interstitial tester
        (persist_assignment production sticky_interstitial tester "true" stored_state)
      ≡ some "true")
    × IsUnique
        (persist_assignment production sticky_interstitial tester "true" stored_state).assignments
    × (find
          (is_assignment "profile_personalization_ui" ("user", "7") "joutak")
          (persist_assignment production sticky_interstitial tester "true" stored_state).assignments
        ≡ find
            (is_assignment "profile_personalization_ui" ("user", "7") "joutak")
            stored_state.assignments)
persist_assignment_lem_example =
    persist_assignment_lem production sticky_interstitial tester ("user", "7") "true" stored_state
      "profile_personalization_ui" ("user", "7") "joutak" tester_subject (refl, tt) refl

abbrev half_rule : Rule
half_rule = record tester_rule { rule_type = RuleType.percentage; percentage = some 43 }

in_bucket_43 :
    rule_matches digest testers header (record half_rule { percentage = some 43 }) tester ≡ true
unfolding rule_matches bucket_percent has_identity user_id identity_key decimal
in_bucket_43 = refl

rule_matches_mono_example :
    rule_matches digest testers header (record half_rule { percentage = some 60 }) tester ≡ true
rule_matches_mono_example =
    rule_matches_mono digest testers header half_rule tester 43 60 (omega arith) refl in_bucket_43

rule_matches-ends_example :
    (rule_matches digest testers header (record half_rule { percentage = some 100 }) tester
      ≡ has_identity tester)
    × (rule_matches digest testers header (record half_rule { percentage = some 0 }) tester ≡ false)
    × (rule_matches digest testers header (record half_rule { percentage = none }) tester ≡ false)
rule_matches-ends_example =
    rule_matches-ends digest testers header half_rule tester 100 (omega arith) refl refl refl

abbrev own_override : Override
own_override = record {
  scope_type = OverrideScope.user;
  scope_value = "7";
  value = "legacy";
  enabled = true;
}

abbrev global_override : Override
global_override = record own_override {
  scope_type = OverrideScope.global;
  scope_value = "*";
  value = "v2";
}

abbrev overridden : Feature
overridden = record header { overrides = own_override ∷ global_override ∷ [] }

tester_id : user_id tester ≡ some 7
unfolding user_id
tester_id = refl

own_override-IsOwn : IsOwn 7 own_override
unfolding decimal
own_override-IsOwn = (refl, refl, refl)

one-IsOwn_value : All (λ o. IsOwn 7 o → o.value ≡ "legacy") overridden.overrides
one-IsOwn_value = (λ own. refl, (λ own. absurd (ground (arith, own.1)), tt))

db_override-own_example : db_override overridden tester ≡ some "legacy"
db_override-own_example =
    db_override-own overridden tester 7 "legacy" own_override tester_id (Memᴰ.head refl)
      own_override-IsOwn one-IsOwn_value

abbrev staff_user : User
staff_user = record { pk = 9; is_staff = true; is_authenticated = true }

abbrev preview_v2 : Dict Value
preview_v2 = ("site_header_version", str "v2") ∷ []

abbrev preview_text : Dict String
preview_text = ("site_header_version", "v2") ∷ []

-- A signer that knows one payload.
abbrev signer : Signer
signer = record {
  dumps = λ payload. "signed";
  loads = λ raw. some (preview_payload 9 preview_text);
  utf8_length = λ raw. 6;
}

preview_is_valid : validated_overrides production preview_v2 ≡ preview_text
unfolding validated_overrides is_staff_preview_allowed get_rollout_policy lookup feature_registry
    is_valid_override_value shown
preview_is_valid = refl

preview_is_set :
    set_override_cookie production signer staff_user preview_v2 ≡ cookie "signed" preview_text
unfolding set_override_cookie can_use_request_overrides
preview_is_set = rw preview_is_valid refl

preview_loads :
    signer.loads (signer.dumps (preview_payload 9 (validated_overrides production preview_v2)))
    ≡ some (preview_payload 9 (validated_overrides production preview_v2))
preview_loads = rw preview_is_valid refl

read_override_cookie-set_example :
    read_override_cookie production signer "signed" (some staff_user) ≡ preview_text
unfolding can_use_request_overrides
read_override_cookie-set_example =
    read_override_cookie-set production signer staff_user staff_user preview_v2 "signed"
      preview_text preview_loads refl preview_is_set
