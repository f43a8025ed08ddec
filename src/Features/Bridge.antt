-- ===== src/Features/Bridge.antt =====
-- backend/featureflags/services.py and provider.py: contexts in the form of the OpenFeature library, and the
-- resolution of a flag through them. The library's own classes are records here.
pub mod Agrees
mod Tests
use Prim.Native.String
use Prim.Native.String.{count}
use Prim.Native.Char.{code}
use jou_tak_web.Prelude.{
  ℕ, String, Bool, true, false, ◌&&◌, ◌||◌, not, Option, none, some, List, [], ◌∷◌, map, ◌==◌,
  nat_eq, leb, is_some, if◌then◌else◌,
}
use jou_tak_web.Prelude.Assoc.{Dict, lookup}
use jou_tak_web.Prelude.Text.{strip, has_prefix}
use jou_tak_web.Values.{
  Value, null, bool, int, str, shown, truthy, non_empty, Parsed, int_of, number, negative, raised,
}
use jou_tak_web.Registry.{Site, Spec, get_rollout_policy}
use jou_tak_web.Features.Model.{
  User, Context, Feature, Group, State, user_id, is_staff, identity_key,
}
use jou_tak_web.Features.Policy.{safe_default}
use jou_tak_web.Features.Preview.{Signer, read_override_cookie}
use jou_tak_web.Features.Evaluate.{
  Reason, default, Decision, active_definition, registry_default, evaluate_definition,
}

-- The attribute `overrides`: a dictionary, or any other object.
pub data Overrides : Type 0 where
  mapping : Dict Value → Overrides
  other : Value → Overrides

-- `EvaluationContext` with the attributes that the program sets; `none` is one that is missing.
pub record EvaluationContext : Type 0 where
  pub targeting_key : Option String
  pub user_id : Option Value
  pub anonymous_id : Option Value
  pub page : Option Value
  pub is_staff : Option Value
  pub identity_key : Option Value
  pub overrides : Option Overrides

abbrev non_empty_text : String → Option String
non_empty_text s = if non_empty s then some s else none

abbrev as_text : Option String → Option Value
as_text none = none
as_text (some s) = some (str s)

abbrev as_number : Option ℕ → Option Value
as_number none = none
as_number (some n) = some (int n)

abbrev text_entry : String × String → String × Value
text_entry e = (e.0, str e.1)

abbrev overrides_or_empty : Option (Dict String) → Dict Value
overrides_or_empty none = []
overrides_or_empty (some d) = map text_entry d

-- `to_openfeature_context`
unfoldable pub to_openfeature_context : Context → EvaluationContext
unfolding identity_key user_id is_staff
to_openfeature_context c = record {
  targeting_key = non_empty_text (identity_key c);
  user_id = as_number (user_id c);
  anonymous_id = as_text c.anonymous_id;
  page = some (str c.page);
  is_staff = some (bool (is_staff c));
  identity_key = as_text (non_empty_text (identity_key c));
  overrides = some (mapping (overrides_or_empty c.request_overrides));
}

abbrev or_null : Option Value → Value
or_null none = null
or_null (some v) = v

-- `str(value or "")`
abbrev text_or_empty : Value → String
text_or_empty v = if truthy v then shown v else ""

-- `text.split(":", 1)[1]` of a text with the prefix "anon:".
abbrev behind_colon : String → String
behind_colon String.[] = ""
behind_colon (String.◌∷◌ c s) =
    let rest = behind_colon s in if nat_eq (code c) b':' then s else rest

abbrev key_of : Option String → Option Value → String
key_of (some s) v = if non_empty s then s else text_or_empty (or_null v)
key_of none v = text_or_empty (or_null v)

abbrev anonymous_of : String → Option Value → Value
anonymous_of identity (some v) = v
anonymous_of identity none =
    if has_prefix "anon:" identity then str (behind_colon identity) else null

abbrev text_if : Value → Option String
text_if v = if truthy v then some (shown v) else none

abbrev shown_entry : String × Value → String × String
shown_entry e = (e.0, shown e.1)

abbrev overrides_in : Option Overrides → Dict String
overrides_in (some (mapping d)) = map shown_entry d
overrides_in o = []

-- The user of a number; the outer `none` is for a negative one, which the model's keys do not have.
abbrev user_of : Bool → Parsed → Option (Option User)
user_of staff (number n) =
    some (some (record { pk = n; is_staff = staff; is_authenticated = true }))
user_of staff (negative n) = none
user_of staff raised = some none

abbrev with_user : Context → Option (Option User) → Option Context
with_user c none = none
with_user c (some u) = some (record c { user = u })

abbrev from_attributes : EvaluationContext → Context
from_attributes e = record {
  user = none;
  anonymous_id = text_if (anonymous_of (key_of e.targeting_key e.identity_key) e.anonymous_id);
  page = text_or_empty (or_null e.page);
  request_overrides = some (overrides_in e.overrides);
}

abbrev user_in : Value → Option Value → Option (Option User)
user_in staff none = some none
user_in staff (some v) = user_of (truthy staff) (int_of v)

abbrev empty_context : Context
empty_context = record { user = none; anonymous_id = none; page = ""; request_overrides = some [] }

-- `from_openfeature_context`
unfoldable pub from_openfeature_context : Option EvaluationContext → Option Context
unfolding shown int_of has_prefix
from_openfeature_context none = some empty_context
from_openfeature_context (some e) =
    with_user (from_attributes e) (user_in (or_null e.is_staff) e.user_id)

-- `FeatureSpec`
pub record FeatureSpec : Type 0 where
  pub key : String
  pub kind : String
  pub default_value : Value
  pub sticky_assignment : Bool

pub data ErrorCode : Type 0 where
  flag_not_found type_mismatch : ErrorCode

-- `FlagResolutionDetails`, less its message; an error has the reason `none` where it is `Reason.ERROR`.
pub record Details : Type 0 where
  pub value : Value
  pub reason : Option Reason
  pub variant : Option String
  pub error_code : Option ErrorCode

abbrev details_of : Decision → Details
details_of d = record {
  value = d.value;
  reason = some d.reason;
  variant = some d.variant;
  error_code = none;
}

abbrev defaulted : Value → Details
defaulted v = record {
  value = v;
  reason = some default;
  variant = some (shown v);
  error_code = none;
}

-- The kind of a registry's entry in `_get_default_features`.
abbrev pub kind_of : String → String
kind_of kind = if kind == "variant" then "variant" else "boolean"

abbrev registry_spec : String → Value → Option Spec → Option FeatureSpec
registry_spec key v none = none
registry_spec key v (some spec) = some (record {
  key = key;
  kind = kind_of spec.kind;
  default_value = v;
  sticky_assignment = spec.sticky;
})

-- The entry of the registry, whose default was coerced.
abbrev pub default_spec : String → Option Spec → Option (Option Value) → Option (Option FeatureSpec)
default_spec key entry none = none
default_spec key entry (some none) = some none
default_spec key entry (some (some v)) = some (registry_spec key v entry)

abbrev or_given : Value → Option (Option Value) → Option Value
or_given given none = none
or_given given (some none) = some given
or_given given (some (some v)) = some v

-- `resolved_default`, by the registry's entry and its coerced default.
abbrev pub registry_value : String → Value → Option Spec → Option (Option Value) → Option Value
registry_value kind given none value = some given
registry_value kind given (some spec) value =
    if kind_of spec.kind == kind then or_given given value else some given

abbrev pub with_default : State → Option Value → Option (Details × State)
with_default st none = none
with_default st (some v) = some (defaulted v, st)

abbrev not_found : Value → Details
not_found given = record {
  value = given;
  reason = some default;
  variant = none;
  error_code = some flag_not_found;
}

abbrev pub mismatch : Value → Details
mismatch given = record {
  value = given;
  reason = none;
  variant = none;
  error_code = some type_mismatch;
}

abbrev pub resolved_spec :
    (FeatureSpec → Option (Details × State))
    → String
    → Value
    → State
    → Option (Option FeatureSpec)
    → Option (Details × State)
resolved_spec resolve kind given st none = none
resolved_spec resolve kind given st (some none) = some (not_found given, st)
resolved_spec resolve kind given st (some (some spec)) =
    if spec.kind == kind then resolve spec else some (mismatch given, st)

module _ (site : Site) where
  abbrev allows_sticky : String → Bool
  allows_sticky key = elim (get_rollout_policy site key) [
    | none ↦ true
    | some policy ↦ policy.allow_sticky
  ]

  abbrev definition_spec : Feature → FeatureSpec
  definition_spec f = record {
    key = f.key;
    kind = f.kind;
    default_value = safe_default site f;
    sticky_assignment = f.sticky_assignment && allows_sticky f.key;
  }

  abbrev pub spec_of : String → Option (Option Value) → Option Feature → Option (Option FeatureSpec)
  spec_of key value (some f) = some (some (definition_spec f))
  spec_of key value none = default_spec key (lookup key site.registry) value

  -- `get_feature_spec`; the outer `none` is `ValueError`.
  unfoldable pub get_feature_spec : List Feature → String → Option (Option FeatureSpec)
  unfolding active_definition registry_default
  get_feature_spec features key =
      spec_of key (registry_default site key) (active_definition features key)

  module _ (groups : List Group) (digest : String → ℕ) where
    -- The evaluation in a rebuilt context, whose cache of required groups is empty.
    abbrev pub evaluated : Feature → State → Option Context → Option (Details × State)
    evaluated f st none = none
    evaluated f st (some c) =
        let decision =
          evaluate_definition site groups digest f c (record st { required_group_ids = [] }) in
        some (details_of decision.0, decision.1)

    abbrev pub resolved :
        String
        → String
        → Value
        → Option EvaluationContext
        → State
        → Option Feature
        → Option (Details × State)
    resolved key kind default_value e st (some f) = evaluated f st (from_openfeature_context e)
    resolved key kind default_value e st none =
        with_default st
          (registry_value kind default_value (lookup key site.registry) (registry_default site key))

    -- `resolve_flag_details` without a definition; `none` is an exception.
    unfoldable pub resolve_flag_details :
        List Feature
        → String
        → String
        → Value
        → Option EvaluationContext
        → State
        → Option (Details × State)
    unfolding active_definition registry_default from_openfeature_context
    resolve_flag_details features key kind default_value e st =
        resolved key kind default_value e st (active_definition features key)

    -- `resolve_boolean_details` and `resolve_string_details` of the provider, for the kinds "boolean" and
    -- "variant".
    unfoldable pub resolve_details :
        List Feature
        → (kind key : String) → Value
        → Option EvaluationContext
        → State
        → Option (Details × State)
    unfolding get_feature_spec resolve_flag_details
    resolve_details features kind key default_value e st =
        resolved_spec (λ spec. resolve_flag_details features key spec.kind spec.default_value e st)
          kind default_value st (get_feature_spec features key)
