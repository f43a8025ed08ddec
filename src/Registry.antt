-- ===== src/Registry.antt =====
-- backend/featureflags/registry.py: the entries of the feature registry and the lookups in it.
-- The functions take the registry and the settings as parameters; Registry/Catalogue.antt has the
-- registry of the program, Registry/Validation.antt the check of a registry at start-up.
pub mod Catalogue
pub mod Validation
pub mod Laws
mod Tests
use jou_tak_web.Prelude.{
  String, Bool, true, false, ◌||◌, Option, none, some, List, [], ◌∷◌, map, ◌==◌, member, is_some,
  keep_if, if◌then◌else◌,
}
use jou_tak_web.Prelude.Assoc.{Dict, lookup, insert}
use jou_tak_web.Prelude.Text.{lower, strip}
use jou_tak_web.Values.{Value, null, bool, int, str, shown, normalized, non_empty}

-- Runtime and operator constraints for one registry entry.
pub record RolloutPolicy : Type 0 where
  pub allowed_audiences : List String
  pub required_group_slug : Option String
  pub guarded_value : Option Value
  pub safe_default : Option Value
  pub allow_staff_preview : Bool
  pub allow_public : Bool
  pub allow_sticky : Bool
  pub variant_labels : List (Value × String)

pub record Spec : Type 0 where
  pub title : String
  pub kind : String
  pub default_env : Option String
  pub default_fallback : Value
  pub variants : List Value
  pub pages : List String
  pub sticky : Bool
  pub description : String
  pub visual_impact : String
  pub rollout_policy : Option RolloutPolicy

-- What the functions of the module read: `FEATURE_REGISTRY`, and the attributes of the settings
-- (`none` for one that is missing or `None`).
pub record Site : Type 0 where
  pub registry : Dict Spec
  pub setting : String → Option Value

abbrev pub guided_rollout_audiences : List String
guided_rollout_audiences =
    "group" ∷ "user_allowlist" ∷ "staff" ∷ "authenticated" ∷ "percentage" ∷ "everyone" ∷ []

abbrev pub default_rollout_policy : RolloutPolicy
default_rollout_policy = record {
  allowed_audiences = guided_rollout_audiences;
  required_group_slug = none;
  guarded_value = none;
  safe_default = none;
  allow_staff_preview = true;
  allow_public = true;
  allow_sticky = true;
  variant_labels = [];
}

abbrev truth_tokens : List String
truth_tokens = "true" ∷ "1" ∷ "yes" ∷ "on" ∷ []

abbrev falsity_tokens : List String
falsity_tokens = "false" ∷ "0" ∷ "no" ∷ "off" ∷ []

unfoldable pub canonical_variant_token : Value → String
unfolding shown
canonical_variant_token (bool true) = "true"
canonical_variant_token (bool false) = "false"
canonical_variant_token (str s) =
    if member (lower (strip s)) truth_tokens
    then "true"
    else if member (lower (strip s)) falsity_tokens
    then "false"
    else strip s
canonical_variant_token v = shown v

abbrev pub policy_of : Spec → RolloutPolicy
policy_of spec = elim spec.rollout_policy [ none ↦ default_rollout_policy | some p ↦ p ]

abbrev env_or_fallback : Site → Spec → Value
env_or_fallback site spec = elim spec.default_env [
  | none ↦ spec.default_fallback
  | some name ↦
      if non_empty name
      then (elim (site.setting name) [ none ↦ spec.default_fallback | some v ↦ v ])
      else spec.default_fallback
]

unfoldable pub is_valid_for : Spec → Value → Bool
is_valid_for spec (bool b) =
    if spec.kind == "boolean" then true else member (shown (bool b)) (map shown spec.variants)
is_valid_for spec v =
    if spec.kind == "boolean"
    then member (normalized v) ("true" ∷ "false" ∷ "1" ∷ "0" ∷ "yes" ∷ "no" ∷ "on" ∷ "off" ∷ [])
    else member (shown v) (map shown spec.variants)

-- The dictionary of canonical tokens and their labels.
abbrev labels_from : List (Value × String) → Dict String → Dict String
labels_from [] labels = labels
labels_from ((value, label) ∷ rest) labels =
    labels_from rest (insert (canonical_variant_token value) label labels)

abbrev choice : Dict String → Value → String × String
choice labels value =
    let token = canonical_variant_token value in
    (token, elim (lookup token labels) [ none ↦ token | some label ↦ label ])

module _ (site : Site) where
  -- `none` is `KeyError` here and in `get_rollout_policy`.
  unfoldable pub get_default_value : String → Option Value
  get_default_value key = elim (lookup key site.registry) [
    | none ↦ none
    | some spec ↦ some (env_or_fallback site spec)
  ]

  unfoldable pub get_rollout_policy : String → Option RolloutPolicy
  get_rollout_policy key = elim (lookup key site.registry) [
    | none ↦ none
    | some spec ↦ some (policy_of spec)
  ]

  unfoldable pub is_audience_allowed : String → String → Bool
  is_audience_allowed key audience = elim (get_rollout_policy key) [
    | none ↦ false
    | some policy ↦ member audience policy.allowed_audiences
  ]

  unfoldable pub is_staff_preview_allowed : String → Bool
  is_staff_preview_allowed key = elim (get_rollout_policy key) [
    | none ↦ false
    | some policy ↦ policy.allow_staff_preview
  ]

  unfoldable pub is_public_rollout_allowed : String → Bool
  is_public_rollout_allowed key = elim (get_rollout_policy key) [
    | none ↦ false
    | some policy ↦ policy.allow_public
  ]

  unfoldable pub is_guarded_flag : String → Bool
  is_guarded_flag key = elim (get_rollout_policy key) [
    | none ↦ false
    | some policy ↦ is_some policy.guarded_value
  ]

  unfoldable pub is_valid_override_value : String → Value → Bool
  unfolding is_valid_for
  is_valid_override_value key value = elim (lookup key site.registry) [
    | none ↦ false
    | some spec ↦ is_valid_for spec value
  ]

  unfoldable pub get_flags_for_page : String → List String
  get_flags_for_page page =
      map (λ e. e.0)
        (keep_if (λ (e : String × Spec). member page e.1.pages || member "*" e.1.pages)
          site.registry)

  unfoldable pub get_variant_choices : String → List (String × String)
  get_variant_choices key = elim (lookup key site.registry) [
    | none ↦ []
    | some spec ↦ map (choice (labels_from (policy_of spec).variant_labels [])) spec.variants
  ]
