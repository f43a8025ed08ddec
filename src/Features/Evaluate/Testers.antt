-- ===== src/Features/Evaluate/Testers.antt =====
-- The design flags of the program's registry: the prototypes are for the testers' group.
use jou_tak_web.Prelude.{
  ℕ, String, ◌≡◌, ◌≢◌, refl, true, false, some, List, arith, any, nat_eq, find, find_sound, member,
  subst, eq_iff, Option-cases, inl, inr,
}
use jou_tak_web.Prelude.Text.{lower, strip}
use jou_tak_web.Values.{Value, str}
use jou_tak_web.Registry.{Site, canonical_variant_token, get_rollout_policy}
use jou_tak_web.Registry.Catalogue.{design_rollout_policy, design_tester_group_slug}
use jou_tak_web.Features.Model.{
  RuleType, Rule, Feature, Group, Context, State, audience, user_id, is_staff,
}
use jou_tak_web.Features.Policy.{group_id_for, has_slug}
use jou_tak_web.Features.Grants.{IsCoherent, IsInRequiredGroup}
use jou_tak_web.Features.Evaluate.{evaluate_definition}
use jou_tak_web.Features.Evaluate.Guard.{
  MaySee, preview, assigned, ruled, evaluate_definition-MaySee,
}

v2-ne-legacy : canonical_variant_token (str "v2") ≢ canonical_variant_token (str "legacy")
unfolding canonical_variant_token lower strip
v2-ne-legacy = ground (arith, eq_iff "v2" "legacy")

-- The actor is a user whom some group with the slug lists as a member.
pub record IsMember (groups : List Group) (slug : String) (c : Context) : Type 0 where
  pub uid : ℕ
  pub group : Group
  pub authenticated : user_id c ≡ some uid
  pub has_slug : group.slug ≡ slug
  pub joined : any (nat_eq uid) group.members ≡ true

found-IsMember :
    (groups : List Group) (slug : String) (c : Context) (uid id : ℕ)
    → user_id c ≡ some uid
    → group_id_for groups slug uid ≡ some id
    → IsMember groups slug c
unfolding group_id_for
found-IsMember groups slug c uid id u e = elim (Option-cases (find (has_slug slug uid) groups)) [
  | inl missed ↦ absurd (ground arith)
  | inr (g, found) ↦
      let fits = find_sound (has_slug slug uid) groups g found in
      record {
        uid = uid;
        group = g;
        authenticated = u;
        has_slug = ground (arith, eq_iff g.slug slug);
        joined = ground arith;
      }
]

module _ (site : Site) (groups : List Group) (digest : String → ℕ) (f : Feature) (c : Context) where
  everyone_unlisted :
      member (audience RuleType.everyone) design_rollout_policy.allowed_audiences ≢ true
  everyone_unlisted e = cc

  MaySee-design :
      (st : State) (v : Value)
      → MaySee site groups digest f c st design_rollout_policy v
      → is_staff c ≡ false
      → (r : Rule) × IsInRequiredGroup groups design_tester_group_slug c r
  MaySee-design st v (preview raw staff allowed asked valid) n = cc
  MaySee-design st v (assigned raw allowed kept valid) n = cc
  MaySee-design st v (ruled r m hit granted valid) n = (
    r,
    granted.in_group design_tester_group_slug refl refl (λ e. everyone_unlisted (
        subst (λ t. member (audience t) design_rollout_policy.allowed_audiences ≡ true) e
          granted.audience_listed)),
  )

  -- Under the program's policy for design prototypes, an actor who is no staff user and gets the
  -- prototype ("v2") is a logged-in member of a group with the slug "website-design-testers". The
  -- context's cache of groups is coherent.
  pub design_flag-IsMember :
      (st : State)
      → IsCoherent groups c st
      → get_rollout_policy site f.key ≡ some design_rollout_policy
      → is_staff c ≡ false
      → canonical_variant_token (evaluate_definition site groups digest f c st).0.value ≡ "v2"
      → IsMember groups design_tester_group_slug c
  unfolding canonical_variant_token lower strip
  design_flag-IsMember st h e n t =
      let (r, group) =
        MaySee-design st _
          (evaluate_definition-MaySee site groups digest f c st design_rollout_policy (str "v2")
            (str "legacy") h e refl refl v2-ne-legacy t)
          n in
      found-IsMember groups design_tester_group_slug c group.uid group.id group.authenticated
        group.joined
