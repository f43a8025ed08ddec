-- ===== src/Features/Grants.antt =====
-- backend/featureflags/services.py: what the rollout policy guarantees where it lets a value through.
use jou_tak_web.Prelude.{
  ℕ, String, ◌≡◌, ◌≢◌, refl, sym, ◌∙◌, ◌⊎◌, inl, inr, true, false, Option, none, some, List, arith,
  member, eq_iff, Option-cases,
}
use jou_tak_web.Prelude.Assoc.{lookup, lookup-insert}
use jou_tak_web.Prelude.Text.{decimal}
use jou_tak_web.Values.{Value, non_empty}
use jou_tak_web.Registry.{Site, RolloutPolicy, get_rollout_policy, canonical_variant_token}
use jou_tak_web.Features.Model.{
  RuleType, Rule, Feature, Group, Context, State, audience, user_id, is_staff,
}
use jou_tak_web.Features.Rules.{listed}
use jou_tak_web.Features.Policy.{
  Source, request_override, db_override as from_db, sticky, rule, group_id_for,
  required_group_id_for_context, policy_value_allowed,
}

-- Each entry of the context's cache is what the query would return now.
pub record IsCoherent (groups : List Group) (c : Context) (st : State) : Type 0 where
  pub at_slug :
      (slug : String) (uid : ℕ) (id : Option ℕ)
      → user_id c ≡ some uid
      → lookup slug st.required_group_ids ≡ some id
      → id ≡ group_id_for groups slug uid

-- The actor is in the policy's required group, and the rule names that group.
pub record IsInRequiredGroup (groups : List Group) (slug : String) (c : Context) (r : Rule)
    : Type 0 where
  pub uid : ℕ
  pub id : ℕ
  pub authenticated : user_id c ≡ some uid
  pub joined : group_id_for groups slug uid ≡ some id
  pub named : listed (decimal id) r.group_ids ≡ true

-- What the policy asks of a rule that gives the guarded value.
pub record IsGranted (groups : List Group) (p : RolloutPolicy) (c : Context) (r : Rule)
    : Type 0 where
  pub audience_listed : member (audience r.rule_type) p.allowed_audiences ≡ true
  pub public : r.rule_type ≡ RuleType.everyone → p.allow_public ≡ true
  pub in_group :
      (slug : String)
      → p.required_group_slug ≡ some slug
      → non_empty slug ≡ true
      → r.rule_type ≢ RuleType.everyone
      → IsInRequiredGroup groups slug c r

module _ (groups : List Group) (c : Context) (st : State) where
  state_with :
      (site : Site) (f : Feature) (v : Value) (r : Rule) (p : RolloutPolicy)
      → get_rollout_policy site f.key ≡ some p
      → ((policy_value_allowed groups site f v c rule (some r) st).1 ≡ st)
        ⊎ ((policy_value_allowed groups site f v c rule (some r) st).1
            ≡ (required_group_id_for_context groups p.required_group_slug c st).1)
  unfolding policy_value_allowed
  state_with site f v r p e = ground arith

  -- The policy leaves the state alone, or looks its group up.
  policy_value_allowed-state :
      (site : Site) (f : Feature) (v : Value) (s : Source) (r : Option Rule)
      → ((policy_value_allowed groups site f v c s r st).1 ≡ st)
        ⊎ ((slug : Option String) × ((policy_value_allowed groups site f v c s r st).1
              ≡ (required_group_id_for_context groups slug c st).1))
  unfolding policy_value_allowed
  policy_value_allowed-state site f v rule (some r) =
      elim (Option-cases (get_rollout_policy site f.key)) [
        | inl missed ↦ inl (ground arith)
        | inr (p, found) ↦ elim (state_with site f v r p found) [
          | inl same ↦ inl same
          | inr looked_up ↦ inr (p.required_group_slug, looked_up)
        ]
      ]
  policy_value_allowed-state site f v s r = inl (ground arith)

  -- Only a rule's candidate may look a group up.
  pub policy_value_allowed-same :
      (site : Site) (f : Feature) (v : Value) (s : Source) (r : Option Rule)
      → s ≢ rule
      → (policy_value_allowed groups site f v c s r st).1 ≡ st
  unfolding policy_value_allowed
  policy_value_allowed-same site f v request_override r n = ground arith
  policy_value_allowed-same site f v from_db r n = ground arith
  policy_value_allowed-same site f v sticky r n = ground arith
  policy_value_allowed-same site f v rule r n = absurd (n refl)

  pub policy_value_allowed-request :
      (site : Site) (f : Feature) (v : Value) (p : RolloutPolicy)
      → get_rollout_policy site f.key ≡ some p
      → (policy_value_allowed groups site f v c request_override none st).0 ≡ true
      → (is_staff c ≡ true) × (p.allow_staff_preview ≡ true)
  unfolding policy_value_allowed
  policy_value_allowed-request site f v p e a = (ground arith, ground arith)

  pub policy_value_allowed-sticky :
      (site : Site) (f : Feature) (v : Value) (p : RolloutPolicy) (g : Value)
      → get_rollout_policy site f.key ≡ some p
      → p.guarded_value ≡ some g
      → canonical_variant_token v ≡ canonical_variant_token g
      → (policy_value_allowed groups site f v c sticky none st).0 ≡ true
      → p.allow_sticky ≡ true
  unfolding policy_value_allowed
  policy_value_allowed-sticky site f v p g e pg t a =
      ground (arith, eq_iff (canonical_variant_token v) (canonical_variant_token g))

  pub policy_value_allowed-db :
      (site : Site) (f : Feature) (v : Value) (p : RolloutPolicy) (g : Value)
      → get_rollout_policy site f.key ≡ some p
      → p.guarded_value ≡ some g
      → canonical_variant_token v ≡ canonical_variant_token g
      → (policy_value_allowed groups site f v c from_db none st).0 ≡ false
  unfolding policy_value_allowed
  policy_value_allowed-db site f v p g e pg t =
      ground (arith, eq_iff (canonical_variant_token v) (canonical_variant_token g))

module _ (groups : List Group) (c : Context) (st : State) (h : IsCoherent groups c st) where
  -- The lookup through the cache gives what the query gives.
  pub required_group_id_for_context-fst :
      (slug : String) (uid : ℕ)
      → user_id c ≡ some uid
      → non_empty slug ≡ true
      → (required_group_id_for_context groups (some slug) c st).0 ≡ group_id_for groups slug uid
  unfolding required_group_id_for_context
  required_group_id_for_context-fst slug uid e n =
      elim (Option-cases (lookup slug st.required_group_ids)) [
        | inl missed ↦ ground arith
        | inr (id, found) ↦ ground (arith, h.at_slug slug uid id e found)
      ]

  coherent_at :
      (slug : Option String) (slug' : String) (uid : ℕ) (id : Option ℕ)
      → user_id c ≡ some uid
      → lookup slug' (required_group_id_for_context groups slug c st).1.required_group_ids ≡ some id
      → id ≡ group_id_for groups slug' uid
  unfolding required_group_id_for_context
  coherent_at none slug' uid id e l = h.at_slug slug' uid id e l
  coherent_at (some slug) slug' uid id e l = ground (
    arith,
    lookup-insert slug slug' (group_id_for groups slug uid) st.required_group_ids,
    eq_iff slug slug',
    h.at_slug slug' uid id,
  )

  -- The cache stays coherent.
  pub required_group_id_for_context-IsCoherent :
      (slug : Option String)
      → IsCoherent groups c (required_group_id_for_context groups slug c st).1
  required_group_id_for_context-IsCoherent slug = record { at_slug = coherent_at slug }

  pub policy_value_allowed-IsCoherent :
      (site : Site) (f : Feature) (v : Value) (s : Source) (r : Option Rule)
      → IsCoherent groups c (policy_value_allowed groups site f v c s r st).1
  policy_value_allowed-IsCoherent site f v s r =
      elim (policy_value_allowed-state groups c st site f v s r) [
        | inl same ↦ rw same h
        | inr (slug, looked_up) ↦ rw looked_up (required_group_id_for_context-IsCoherent slug)
      ]

  -- The membership behind a group that was found.
  found_group :
      (slug : String) (id : ℕ)
      → non_empty slug ≡ true
      → (required_group_id_for_context groups (some slug) c st).0 ≡ some id
      → (uid : ℕ) × (user_id c ≡ some uid) × (group_id_for groups slug uid ≡ some id)
  found_group slug id n e = elim (Option-cases (user_id c)) [
    | inl missing ↦ unfold required_group_id_for_context in absurd (ground arith)
    | inr (uid, known) ↦ (uid, known, sym (required_group_id_for_context-fst slug uid known n) ∙ e)
  ]

  listed_group :
      (site : Site) (f : Feature) (v : Value) (r : Rule) (p : RolloutPolicy) (g : Value)
      (slug : String)
      → get_rollout_policy site f.key ≡ some p
      → p.guarded_value ≡ some g
      → canonical_variant_token v ≡ canonical_variant_token g
      → (policy_value_allowed groups site f v c rule (some r) st).0 ≡ true
      → p.required_group_slug ≡ some slug
      → non_empty slug ≡ true
      → r.rule_type ≢ RuleType.everyone
      → (id : ℕ) × ((required_group_id_for_context groups (some slug) c st).0 ≡ some id)
        × (listed (decimal id) r.group_ids ≡ true)
  unfolding policy_value_allowed
  listed_group site f v r p g slug e pg t a ps n ne =
      elim (Option-cases (required_group_id_for_context groups (some slug) c st).0) [
        | inl missed ↦
            absurd (ground (arith, eq_iff (canonical_variant_token v) (canonical_variant_token g)))
        | inr (id, found) ↦ (
          id,
          found,
          ground (arith, eq_iff (canonical_variant_token v) (canonical_variant_token g)),
        )
      ]

  -- A rule that may give the guarded value grants it.
  pub policy_value_allowed-rule :
      (site : Site) (f : Feature) (v : Value) (r : Rule) (p : RolloutPolicy) (g : Value)
      → get_rollout_policy site f.key ≡ some p
      → p.guarded_value ≡ some g
      → canonical_variant_token v ≡ canonical_variant_token g
      → (policy_value_allowed groups site f v c rule (some r) st).0 ≡ true
      → IsGranted groups p c r
  unfolding policy_value_allowed
  policy_value_allowed-rule site f v r p g e pg t a = record {
    audience_listed =
        ground (arith, eq_iff (canonical_variant_token v) (canonical_variant_token g));
    public = λ ev. ground (arith, eq_iff (canonical_variant_token v) (canonical_variant_token g));
    in_group = λ slug ps n ne.
        let (id, found, named) = listed_group site f v r p g slug e pg t a ps n ne in
        let (uid, known, joined) = found_group slug id n found in
        record { uid = uid; id = id; authenticated = known; joined = joined; named = named };
  }
