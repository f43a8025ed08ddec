-- ===== src/Rollouts/Steps/Kept.antt =====
-- What holds of every table that the operations reach.

use jou_tak_web.Prelude.{
  ℕ, ◌≡◌, sym, subst, Bool, true, false, inl, inr, some, List, [], ◌∷◌, any, find, member, nat_eq,
  arith, All, Bool-cases, if-true, if-false, some-injective,
}
use jou_tak_web.Registry.{Site, is_audience_allowed, canonical_variant_token}
use jou_tak_web.Features.Model.{audience, RuleType}
use jou_tak_web.Rollouts.Model.{
  RolloutRule, done, check-passed, Actor, Fields, has_pk, switched, full_clean, clean_rule,
  value_choices, page_choices, audience_not_allowed, permission_missing, value_not_allowed,
  page_not_allowed,
}
use jou_tak_web.Rollouts.Create.{RolloutForm, new_rollout, check_form, text_or, may_target}
use jou_tak_web.Rollouts.Disjoint.{
  IsDisjoint, clashes, IsDisjoint-save, All-save, no_clash-create, no_clash-start,
}
use jou_tak_web.Rollouts.Steps.{
  Step, creates, stops, starts, Reaches, here, then_, IsCreated, create_rollout-IsCreated,
  stop_rollout-IsStopped, start_rollout-IsStarted,
}

stopped-free :
    (r : RolloutRule) (rows : List RolloutRule)
    → All (λ s. nat_eq s.rule.pk r.rule.pk ≡ false → clashes (switched false r) s ≡ false) rows
stopped-free r [] = tt
stopped-free r (row ∷ rows) = ((λ differ. ground arith), stopped-free r rows)

pub All-find :
    (P : RolloutRule → Type 0) (p : RolloutRule → Bool) (rows : List RolloutRule) (r : RolloutRule)
    → All P rows
    → find p rows ≡ some r
    → P r
All-find P p [] r all h = cc
All-find P p (row ∷ rows) r all h = elim (Bool-cases (p row)) [
  | inl passes ↦
      subst P (some-injective row r (if-true (p row) (some row) (find p rows) (some r) passes h))
        all.0
  | inr fails ↦
      All-find P p rows r all.1 (if-false (p row) (some row) (find p rows) (some r) fails h)
]

module _ (site : Site) (fields : Fields) where
  created-IsDisjoint :
      (pk : ℕ) (form : RolloutForm) (user : Actor) (rows later : List RolloutRule)
      → any (has_pk pk) rows ≡ false
      → IsCreated site fields pk form user rows later
      → IsDisjoint rows
      → IsDisjoint later
  unfolding new_rollout
  created-IsDisjoint pk form user rows later fresh made disjoint = elim made.result [
    | inl same ↦ subst IsDisjoint (sym same) disjoint
    | inr added ↦
        subst IsDisjoint (sym added.1)
          (no_clash-create (new_rollout pk made.rule_type form) rows fresh made.free, disjoint)
  ]

  Step-IsDisjoint :
      (rows later : List RolloutRule)
      → Step site fields rows later
      → IsDisjoint rows
      → IsDisjoint later
  Step-IsDisjoint rows later (creates definitions pk form user r made fresh h) disjoint =
      created-IsDisjoint pk form user rows later fresh
        (create_rollout-IsCreated site fields definitions pk form user r made rows later h) disjoint
  Step-IsDisjoint rows later (stops definitions rule_id reason r h) disjoint =
      let stopped = stop_rollout-IsStopped site fields definitions rule_id reason r rows later h in
      subst IsDisjoint (sym stopped.result)
        (IsDisjoint-save (switched false stopped.row) rows (stopped-free stopped.row rows) disjoint)
  Step-IsDisjoint rows later (starts definitions groups rule_id reason user r h) disjoint =
      let started =
        start_rollout-IsStarted site fields definitions groups rule_id reason user r rows later h in
      subst IsDisjoint (sym started.result) (
        IsDisjoint-save (switched true started.row) rows
          (no_clash-start started.row rows (ground (arith, started.free))) disjoint)

  -- However rollouts are created, stopped and started, with whatever groups and by whatever users: no two rows
  -- have one key, and no two that are enabled for a flag have a page in common.
  pub Reaches-IsDisjoint :
      (rows later : List RolloutRule)
      → Reaches site fields rows later
      → IsDisjoint rows
      → IsDisjoint later
  Reaches-IsDisjoint rows _ here disjoint = disjoint
  Reaches-IsDisjoint rows _ (then_ {middle} later run step) disjoint =
      Step-IsDisjoint middle later step (Reaches-IsDisjoint rows middle run disjoint)

  -- What the registry allows for the flag of a rule.
  abbrev pub IsAllowed : RolloutRule → Type 0
  IsAllowed r =
      (is_audience_allowed site r.feature (audience r.rule.rule_type) ≡ true)
      × (member r.rule.value (value_choices site r.feature) ≡ true)
      × (member r.rule.page (page_choices site r.feature) ≡ true)
      × (clean_rule site r ≡ true)

  new-IsAllowed :
      (pk : ℕ) (form : RolloutForm) (user : Actor) (rule_type : RuleType)
      → check_form site fields user rule_type form ≡ done tt
      → full_clean site fields (new_rollout pk rule_type form) ≡ true
      → IsAllowed (new_rollout pk rule_type form)
  unfolding check_form new_rollout
  new-IsAllowed pk form user rule_type h clean =
      let allowed =
        check-passed (is_audience_allowed site form.feature (audience rule_type))
          audience_not_allowed _ tt h in
      let permitted =
        check-passed (may_target user form.audience) permission_missing _ tt allowed.1 in
      let valued =
        check-passed (member (canonical_variant_token form.value) (value_choices site form.feature))
          value_not_allowed _ tt permitted.1 in
      let paged =
        check-passed (member (text_or "" form.page) (page_choices site form.feature))
          page_not_allowed _ tt valued.1 in
      (allowed.0, valued.0, paged.0, ground (arith, clean))

  switched-IsAllowed :
      (b : Bool) (r : RolloutRule)
      → full_clean site fields (switched b r) ≡ true
      → IsAllowed r
      → IsAllowed (switched b r)
  unfolding clean_rule
  switched-IsAllowed b r clean allowed = (allowed.0, allowed.1, allowed.2, allowed.3)

  Step-IsAllowed :
      (rows later : List RolloutRule)
      → Step site fields rows later
      → All IsAllowed rows
      → All IsAllowed later
  Step-IsAllowed rows later (creates definitions pk form user r made fresh h) all =
      let created =
        create_rollout-IsCreated site fields definitions pk form user r made rows later h in
      elim created.result [
        | inl same ↦ subst (All IsAllowed) (sym same) all
        | inr added ↦
            subst (All IsAllowed) (sym added.1)
              (new-IsAllowed pk form user created.rule_type created.checked added.0, all)
      ]
  Step-IsAllowed rows later (stops definitions rule_id reason r h) all =
      let stopped = stop_rollout-IsStopped site fields definitions rule_id reason r rows later h in
      let row = All-find IsAllowed (has_pk rule_id) rows stopped.row all stopped.found in
      subst (All IsAllowed) (sym stopped.result) (
        All-save IsAllowed (switched false stopped.row) rows all
          (switched-IsAllowed false stopped.row stopped.clean row))
  Step-IsAllowed rows later (starts definitions groups rule_id reason user r h) all =
      let started =
        start_rollout-IsStarted site fields definitions groups rule_id reason user r rows later h in
      let row = All-find IsAllowed (has_pk rule_id) rows started.row all started.found in
      subst (All IsAllowed) (sym started.result) (
        All-save IsAllowed (switched true started.row) rows all
          (switched-IsAllowed true started.row started.clean row))

  -- Every rule that these operations leave in the table has an audience, a value and a page that the registry
  -- allows for its flag, and a percentage of at most 100.
  pub Reaches-IsAllowed :
      (rows later : List RolloutRule)
      → Reaches site fields rows later
      → All IsAllowed rows
      → All IsAllowed later
  Reaches-IsAllowed rows _ here all = all
  Reaches-IsAllowed rows _ (then_ {middle} later run step) all =
      Step-IsAllowed middle later step (Reaches-IsAllowed rows middle run all)
