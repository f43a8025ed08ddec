-- ===== src/Features/Evaluate/Guard.antt =====
-- Guarded values are fail-closed.
use mathlib.Core.List.{Memᴰ}
use jou_tak_web.Prelude.{
  ℕ, String, ◌≡◌, ◌≢◌, sym, ◌∙◌, ap, subst, some-injective, true, some, List, arith,
}
use jou_tak_web.Values.{Value}
use jou_tak_web.Registry.{Site, RolloutPolicy, get_rollout_policy, canonical_variant_token}
use jou_tak_web.Features.Model.{Rule, Feature, Group, Context, State, is_staff}
use jou_tak_web.Features.Rules.{rule_matches}
use jou_tak_web.Features.Policy.{safe_default, validated_feature_value, rule_result}
use jou_tak_web.Features.Assignments.{sticky_assignment}
use jou_tak_web.Features.Grants.{
  IsCoherent, IsGranted, policy_value_allowed-request, policy_value_allowed-db,
  policy_value_allowed-sticky, policy_value_allowed-rule,
}
use jou_tak_web.Features.Evaluate.{text_value, requested, evaluate_definition}
use jou_tak_web.Features.Evaluate.Origin.{
  Origin, by_request, by_db, by_sticky, by_rule, by_default, evaluate_definition-Origin,
}

safe_default-guarded :
    (site : Site) (f : Feature) (p : RolloutPolicy) (s : Value)
    → get_rollout_policy site f.key ≡ some p
    → p.safe_default ≡ some s
    → safe_default site f ≡ s
unfolding safe_default
safe_default-guarded site f p s e ps = ground arith

module _ (site : Site) (groups : List Group) (digest : String → ℕ) (f : Feature) (c : Context) where
  -- The ways in which an actor may see a guarded value.
  pub data MaySee (st : State) (p : RolloutPolicy) (v : Value) : Type 0 where
    preview :
        (raw : Value)
        → is_staff c ≡ true
        → p.allow_staff_preview ≡ true
        → requested f c ≡ some raw
        → validated_feature_value site f raw ≡ some v
        → MaySee st p v
    assigned :
        (raw : Value)
        → p.allow_sticky ≡ true
        → text_value (sticky_assignment site f c st) ≡ some raw
        → validated_feature_value site f raw ≡ some v
        → MaySee st p v
    ruled :
        (r : Rule)
        → Memᴰ r f.rules
        → rule_matches digest groups f r c ≡ true
        → IsGranted groups p c r
        → validated_feature_value site f (rule_result site f r) ≡ some v
        → MaySee st p v

  Origin-MaySee :
      (st : State) (p : RolloutPolicy) (g s v : Value)
      → get_rollout_policy site f.key ≡ some p
      → p.guarded_value ≡ some g
      → p.safe_default ≡ some s
      → canonical_variant_token g ≢ canonical_variant_token s
      → canonical_variant_token v ≡ canonical_variant_token g
      → Origin site groups digest f c st v
      → MaySee st p v
  Origin-MaySee st p g s v e pg ps ne t (by_request a) =
      let (staff, allowed) = policy_value_allowed-request groups c a.st site f v p e a.allowed in
      preview a.stored staff allowed a.read a.valid
  Origin-MaySee st p g s v e pg ps ne t (by_db a) =
      cc (policy_value_allowed-db groups c a.st site f v p g e pg t)
  Origin-MaySee st p g s v e pg ps ne t (by_sticky a) =
      assigned a.stored (policy_value_allowed-sticky groups c a.st site f v p g e pg t a.allowed)
        a.read a.valid
  Origin-MaySee st p g s v e pg ps ne t (by_rule r m hit a) =
      ruled r m hit
        (policy_value_allowed-rule groups c a.st a.coherent site f v r p g e pg t a.allowed)
        (subst (λ x. validated_feature_value site f x ≡ some v)
          (sym (some-injective (rule_result site f r) a.stored a.read)) a.valid)
  Origin-MaySee st p g s v e pg ps ne t (by_default d) =
      absurd (ne (sym t ∙ ap canonical_variant_token (d ∙ safe_default-guarded site f p s e ps)))

  -- A decision with the guarded value of its flag's policy, where that policy has another safe default,
  -- was coerced from the value that the request of a staff user asks for, where the policy allows staff
  -- previews, from the text of the actor's sticky row, where the policy allows those, or from the result of
  -- a matching rule of the flag whose audience the policy lists, which is public only if the policy is, and
  -- whose actor is in the policy's required group, which the rule names. The context's cache of groups is
  -- coherent at the start.
  pub evaluate_definition-MaySee :
      (st : State) (p : RolloutPolicy) (g s : Value)
      → IsCoherent groups c st
      → get_rollout_policy site f.key ≡ some p
      → p.guarded_value ≡ some g
      → p.safe_default ≡ some s
      → canonical_variant_token g ≢ canonical_variant_token s
      → canonical_variant_token (evaluate_definition site groups digest f c st).0.value
        ≡ canonical_variant_token g
      → MaySee st p (evaluate_definition site groups digest f c st).0.value
  evaluate_definition-MaySee st p g s h e pg ps ne t =
      Origin-MaySee st p g s _ e pg ps ne t (evaluate_definition-Origin site groups digest f c st h)
