-- ===== src/Registry/Validation.antt =====
-- `validate_registry` of backend/featureflags/registry.py: the first contract that a registry breaks.
use jou_tak_web.Prelude.{
  String, Bool, true, false, not, ◌&&◌, ◌||◌, Option, none, some, List, [], ◌∷◌, map, ◌==◌, member,
  all, any, is_some, nat_eq, keep_if, if◌then◌else◌,
}
use jou_tak_web.Prelude.Text.{strip}
use jou_tak_web.Values.{Value, null, bool, int, str, non_empty}
use jou_tak_web.Registry.{
  RolloutPolicy, Spec, Site, guided_rollout_audiences, canonical_variant_token, policy_of,
  get_default_value, get_rollout_policy,
}
use jou_tak_web.Registry.Catalogue.{
  versions_variants, design_rollout_policy, contact_page_rollout_policy,
}

-- `ImproperlyConfigured`, by its message; `key_error` where a default cannot be found.
pub data ConfigError : Type 0 where
  guarded_keys_drifted key_error : ConfigError
  unsupported_kind title_required description_required visual_impact_required : String → ConfigError
  default_not_a_variant pages_empty unsupported_audiences : String → ConfigError
  public_contradicts_audiences required_group_not_allowed : String → ConfigError
  labels_incomplete guarded_values_inconsistent : String → ConfigError
  guarded_default_can_drift design_variants_changed : String → ConfigError

-- `==` of Python values; `True == 1`.
abbrev pub value_eq : Value → Value → Bool
value_eq null null = true
value_eq (bool true) (bool b) = b
value_eq (bool false) (bool b) = not b
value_eq (bool true) (int n) = nat_eq n 1
value_eq (bool false) (int n) = nat_eq n 0
value_eq (int n) (bool true) = nat_eq n 1
value_eq (int n) (bool false) = nat_eq n 0
value_eq (int n) (int m) = nat_eq n m
value_eq (str s) (str t) = s == t
value_eq _ _ = false

abbrev list_eq {ℓ} : {A : Type ℓ} → (A → A → Bool) → List A → List A → Bool
list_eq eq [] [] = true
list_eq eq (x ∷ xs) (y ∷ ys) = eq x y && list_eq eq xs ys
list_eq eq _ _ = false

abbrev option_eq {ℓ} : {A : Type ℓ} → (A → A → Bool) → Option A → Option A → Bool
option_eq eq none none = true
option_eq eq (some x) (some y) = eq x y
option_eq eq _ _ = false

abbrev bool_eq : Bool → Bool → Bool
bool_eq true b = b
bool_eq false b = not b

abbrev label_eq : Value × String → Value × String → Bool
label_eq (v, l) (w, m) = value_eq v w && l == m

-- `==` of the frozen dataclass: field by field.
abbrev policy_eq : RolloutPolicy → RolloutPolicy → Bool
policy_eq p q =
    list_eq ◌==◌ p.allowed_audiences q.allowed_audiences
    && option_eq ◌==◌ p.required_group_slug q.required_group_slug
    && option_eq value_eq p.guarded_value q.guarded_value
    && option_eq value_eq p.safe_default q.safe_default
    && bool_eq p.allow_staff_preview q.allow_staff_preview
    && bool_eq p.allow_public q.allow_public
    && bool_eq p.allow_sticky q.allow_sticky
    && list_eq label_eq p.variant_labels q.variant_labels

abbrev subset : List String → List String → Bool
subset xs ys = all (λ x. member x ys) xs

abbrev pub tokens : List Value → List String
tokens = map canonical_variant_token

abbrev pub blank : String → Bool
blank s = not (non_empty (strip s))

abbrev pub has_text : Option String → Bool
has_text none = false
has_text (some s) = non_empty s

abbrev pub is_nil {ℓ} : {A : Type ℓ} → List A → Bool
is_nil [] = true
is_nil (x ∷ xs) = false

-- The first error whose test holds.
abbrev pub first_error : List (Bool × ConfigError) → Option ConfigError
first_error [] = none
first_error ((test, e) ∷ rest) = if test then some e else first_error rest

-- The checks of a policy that has a guarded value.
unfoldable pub check_guarded : String → Spec → RolloutPolicy → Value → Value → Option ConfigError
check_guarded key spec policy default guarded =
    let safe_token : String = elim policy.safe_default [
      | none ↦ canonical_variant_token null
      | some v ↦ canonical_variant_token v
    ] in
    first_error (
      (
        not (is_some policy.safe_default)
            || not (member (canonical_variant_token guarded) (tokens spec.variants))
            || not (member safe_token (tokens spec.variants))
            || canonical_variant_token guarded == safe_token,
        guarded_values_inconsistent key,
      )
      ∷ (
        not (canonical_variant_token default == safe_token)
            || spec.sticky && not policy.allow_sticky
            || has_text spec.default_env,
        guarded_default_can_drift key,
      )
      ∷ [])

-- The checks of one entry that come before those of its guarded value.
unfoldable pub check_metadata : String → Spec → RolloutPolicy → Value → Option ConfigError
check_metadata key spec policy default =
    let label_tokens = tokens (map (λ (e : Value × String). e.0) policy.variant_labels) in
    first_error (
      (not (spec.kind == "boolean" || spec.kind == "variant"), unsupported_kind key)
      ∷ (blank spec.title, title_required key)
      ∷ (blank spec.description, description_required key)
      ∷ (blank spec.visual_impact, visual_impact_required key)
      ∷ (not (any (value_eq default) spec.variants), default_not_a_variant key)
      ∷ (is_nil spec.pages, pages_empty key)
      ∷ (
        is_nil policy.allowed_audiences
            || not (subset policy.allowed_audiences guided_rollout_audiences),
        unsupported_audiences key,
      )
      ∷ (
        not (bool_eq policy.allow_public (member "everyone" policy.allowed_audiences)),
        public_contradicts_audiences key,
      )
      ∷ (
        has_text policy.required_group_slug && not (member "group" policy.allowed_audiences),
        required_group_not_allowed key,
      )
      ∷ (
        not (is_nil policy.variant_labels)
            && not (
                subset label_tokens (tokens spec.variants)
                && subset (tokens spec.variants) label_tokens),
        labels_incomplete key,
      )
      ∷ [])

abbrev pub then_check : Option ConfigError → Option ConfigError → Option ConfigError
then_check none next = next
then_check (some e) next = some e

abbrev pub check_guard : String → Spec → RolloutPolicy → Value → Option Value → Option ConfigError
check_guard key spec policy default none = none
check_guard key spec policy default (some guarded) = check_guarded key spec policy default guarded

unfoldable pub check_entry : String → Spec → RolloutPolicy → Value → Option ConfigError
unfolding check_metadata check_guarded
check_entry key spec policy default = then_check (check_metadata key spec policy default) (
    then_check (check_guard key spec policy default policy.guarded_value) (
      first_error (
        (
          (policy_eq policy design_rollout_policy || policy_eq policy contact_page_rollout_policy)
              && not (list_eq value_eq spec.variants versions_variants),
          design_variants_changed key,
        )
        ∷ [])))

abbrev pub guarded_keys : Site → List String
guarded_keys site =
    map (λ e. e.0)
      (keep_if (λ (e : String × Spec). is_some (policy_of e.1).guarded_value) site.registry)

-- One round of the loop: the entry's default and policy are looked up by its key.
abbrev pub check_key : Site → String × Spec → Option ConfigError
check_key site (key, spec) = elim (get_default_value site key) [
  | none ↦ some key_error
  | some default ↦ elim (get_rollout_policy site key) [
    | none ↦ some key_error
    | some policy ↦ check_entry key spec policy default
  ]
]

unfoldable pub check_all : Site → List (String × Spec) → Option ConfigError
check_all site [] = none
check_all site (e ∷ rest) = then_check (check_key site e) (check_all site rest)

-- `design_flag_keys` is the snapshot that the module took when it was loaded.
unfoldable pub validate_registry : List String → Site → Option ConfigError
unfolding check_all check_entry
validate_registry design_flag_keys site =
    if list_eq ◌==◌ design_flag_keys (guarded_keys site)
    then check_all site site.registry
    else some guarded_keys_drifted
