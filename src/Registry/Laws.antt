-- ===== src/Registry/Laws.antt =====
-- What a registry that passes its start-up check guarantees of its entries.
use jou_tak_web.Prelude.{
  String, ◌≡◌, ◌≢◌, true, false, List, [], ◌∷◌, Option, none, some, arith, member, eq_iff, subst,
}
use jou_tak_web.Prelude.Assoc.{lookup}
use jou_tak_web.Values.{Value}
use jou_tak_web.Registry.{
  Site, Spec, RolloutPolicy, canonical_variant_token, policy_of, get_default_value,
  get_rollout_policy,
}
use jou_tak_web.Registry.Validation.{
  ConfigError, then_check, check_guard, check_guarded, check_metadata, check_entry, check_key,
  check_all, validate_registry, tokens, has_text,
}

-- The contract of a guarded entry: the default is a safe variant, apart from the guarded one, and no
-- setting or sticky assignment can move it.
pub record IsFailClosed (spec : Spec) (policy : RolloutPolicy) (default guarded : Value)
    : Type 0 where
  pub safe : Value
  pub has_safe : policy.safe_default ≡ some safe
  pub safe_is_variant : member (canonical_variant_token safe) (tokens spec.variants) ≡ true
  pub guarded_is_variant : member (canonical_variant_token guarded) (tokens spec.variants) ≡ true
  pub guarded_ne_safe : canonical_variant_token guarded ≢ canonical_variant_token safe
  pub default_is_safe : canonical_variant_token default ≡ canonical_variant_token safe
  pub no_setting : has_text spec.default_env ≡ false
  pub sticky_allowed : spec.sticky ≡ true → policy.allow_sticky ≡ true

check_guarded_sound :
    (key : String) (spec : Spec) (policy : RolloutPolicy) (default guarded : Value) (s : Value)
    → policy.safe_default ≡ some s
    → check_guarded key spec policy default guarded ≡ none
    → IsFailClosed spec policy default guarded
unfolding check_guarded
check_guarded_sound key spec policy default guarded s e h = record {
  safe = s;
  has_safe = e;
  safe_is_variant = ground arith;
  guarded_is_variant = ground arith;
  guarded_ne_safe =
      ground (arith, eq_iff (canonical_variant_token guarded) (canonical_variant_token s));
  default_is_safe =
      ground (arith, eq_iff (canonical_variant_token default) (canonical_variant_token s));
  no_setting = ground arith;
  sticky_allowed = ground arith;
}

check_guarded_safe :
    (key : String) (spec : Spec) (policy : RolloutPolicy) (default guarded : Value)
    → check_guarded key spec policy default guarded ≡ none
    → (s : Value) × (policy.safe_default ≡ some s)
unfolding check_guarded
check_guarded_safe key spec policy default guarded h = ground arith

then_check-none : (a b : Option ConfigError) → then_check a b ≡ none → (a ≡ none) × (b ≡ none)
then_check-none a b h = ground arith

check_entry-guarded :
    (key : String) (spec : Spec) (policy : RolloutPolicy) (default guarded : Value)
    → policy.guarded_value ≡ some guarded
    → check_entry key spec policy default ≡ none
    → check_guarded key spec policy default guarded ≡ none
unfolding check_entry
check_entry-guarded key spec policy default guarded g h =
    let rest = (then_check-none (check_metadata key spec policy default) _ h).1 in
    subst (λ o. check_guard key spec policy default o ≡ none) g (then_check-none _ _ rest).0

check_all-lookup :
    (site : Site) (key : String) (spec : Spec) (entries : List (String × Spec))
    → lookup key entries ≡ some spec
    → check_all site entries ≡ none
    → check_key site (key, spec) ≡ none
unfolding lookup check_all
check_all-lookup site key spec [] l h = cc
check_all-lookup site key spec ((j, s) ∷ rest) l h =
    ground (arith, check_all-lookup site key spec rest, eq_iff j key)

validate_registry-lookup :
    (keys : List String) (site : Site) (key : String) (spec : Spec)
    → validate_registry keys site ≡ none
    → lookup key site.registry ≡ some spec
    → check_key site (key, spec) ≡ none
unfolding validate_registry
validate_registry-lookup keys site key spec h l =
    ground (arith, check_all-lookup site key spec site.registry)

-- In a registry that passes `validate_registry`, every entry with a guarded value is fail-closed: its
-- policy names a safe variant that differs from the guarded one, the registered default is that safe
-- variant, no setting replaces it, and it is sticky only where its policy allows that.
pub validate_registry-IsFailClosed :
    (keys : List String) (site : Site) (key : String) (spec : Spec) (default guarded : Value)
    → validate_registry keys site ≡ none
    → lookup key site.registry ≡ some spec
    → get_default_value site key ≡ some default
    → (policy_of spec).guarded_value ≡ some guarded
    → IsFailClosed spec (policy_of spec) default guarded
unfolding get_rollout_policy
validate_registry-IsFailClosed keys site key spec default guarded h l d g =
    let entry : check_entry key spec (policy_of spec) default ≡ none =
      ground (arith, validate_registry-lookup keys site key spec) in
    let checked = check_entry-guarded key spec (policy_of spec) default guarded g entry in
    let (s, e) = check_guarded_safe key spec (policy_of spec) default guarded checked in
    check_guarded_sound key spec (policy_of spec) default guarded s e checked
