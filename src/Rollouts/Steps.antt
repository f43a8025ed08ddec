-- ===== src/Rollouts/Steps.antt =====
-- The operations on rollouts as steps of the table, and what every table that they reach has.
pub mod Kept
pub mod Once
use Prim.Native.String
use jou_tak_web.Prelude.{
  ℕ, String, ◌≡◌, refl, sym, ap, ◌∙◌, subst, Bool, true, false, ◌&&◌, ◌||◌, not, ◌⊎◌, inl, inr,
  Option, none, some, List, [], ◌∷◌, any, find, member, nat_eq, is_some, arith, All, find_sound,
  if◌then◌else◌,
}
use jou_tak_web.Values.{Value, str}
use jou_tak_web.Registry.{Site, is_audience_allowed, canonical_variant_token}
use jou_tak_web.Features.Model.{Rule, Group, audience, RuleType}
use jou_tak_web.Rollouts.Model.{
  RolloutRule, Definition, Outcome, done, refused, ◌>>=◌, ◌>>◌, check, or_else, bind-done,
  check-passed, done-injective, or_else-done, Actor, Fields, has_pk, save, switched,
  active_conflict, definition_of, is_available, is_reason, is_never_started_draft, full_clean,
  clean_rule, value_choices, page_choices, does_not_exist, feature_unavailable,
  active_conflict_found, reason_too_short, not_clean, already_stopped, already_started, not_a_draft,
  unknown_audience,
}
use jou_tak_web.Rollouts.Create.{
  RolloutForm, create_rollout, new_rollout, retried_draft, check_form, audience_rule_type, text_or,
  saved,
}
use jou_tak_web.Rollouts.Switch.{stop_rollout, start_rollout, check_row, saved_as}
use jou_tak_web.Rollouts.Disjoint.{
  IsDisjoint, IsApart, clashes, IsDisjoint-save, All-save, no_clash-create, no_clash-start,
}

module _ (site : Site) (fields : Fields) where
  -- One successful operation, under any definitions, groups and user. A new row has a key of its own.
  pub data Step (rows later : List RolloutRule) : Type 0 where
    creates :
        (definitions : List Definition) (pk : ℕ) (form : RolloutForm) (user : Actor)
        (r : RolloutRule) (made : Bool)
        → any (has_pk pk) rows ≡ false
        → create_rollout site fields definitions pk form user rows ≡ done (r, made, later)
        → Step rows later
    stops :
        (definitions : List Definition) (rule_id : ℕ) (reason : String) (r : RolloutRule)
        → stop_rollout site fields definitions rule_id reason rows ≡ done (r, later)
        → Step rows later
    starts :
        (definitions : List Definition) (groups : List Group) (rule_id : ℕ) (reason : String)
        (user : Actor) (r : RolloutRule)
        → start_rollout site fields definitions groups rule_id reason user rows ≡ done (r, later)
        → Step rows later

  pub data Reaches (rows : List RolloutRule) : List RolloutRule → Type 0 where
    here : Reaches rows rows
    then_ :
        {middle : List RolloutRule} (later : List RolloutRule)
        → Reaches rows middle
        → Step middle later
        → Reaches rows later

  -- What an operation that succeeds has found and done.
  pub record IsCreated (pk : ℕ) (form : RolloutForm) (user : Actor) (rows later : List RolloutRule)
      : Type 0 where
    pub rule_type : RuleType
    pub checked : check_form site fields user rule_type form ≡ done tt
    pub free :
        (not form.enabled
          || not (is_some (active_conflict form.feature (text_or "" form.page) none rows)))
        ≡ true
    pub result :
        (later ≡ rows)
        ⊎ ((full_clean site fields (new_rollout pk rule_type form) ≡ true)
            × (later ≡ new_rollout pk rule_type form ∷ rows))

  pub record IsStopped (rule_id : ℕ) (rows later : List RolloutRule) : Type 0 where
    pub row : RolloutRule
    pub found : find (has_pk rule_id) rows ≡ some row
    pub clean : full_clean site fields (switched false row) ≡ true
    pub result : later ≡ save (switched false row) rows

  pub record IsStarted (groups : List Group) (rule_id : ℕ) (user : Actor)
      (rows later : List RolloutRule) : Type 0 where
    pub row : RolloutRule
    pub found : find (has_pk rule_id) rows ≡ some row
    pub draft : is_never_started_draft row ≡ true
    pub checked : check_row site fields groups user row ≡ done tt
    pub free :
        not (is_some (active_conflict row.feature row.rule.page (some row.rule.pk) rows)) ≡ true
    pub clean : full_clean site fields (switched true row) ≡ true
    pub result : later ≡ save (switched true row) rows

  saved-cases :
      (new : RolloutRule) (rows later : List RolloutRule) (o : Option RolloutRule) (r : RolloutRule)
      (made : Bool)
      → saved site fields new rows o ≡ done (r, made, later)
      → (later ≡ rows) ⊎ ((full_clean site fields new ≡ true) × (later ≡ new ∷ rows))
  saved-cases new rows later (some existing) r made h =
      inl (sym (ap (λ t. t.2) (done-injective _ _ h)))
  saved-cases new rows later none r made h =
      let clean =
        check-passed (full_clean site fields new) not_clean (done (new, true, new ∷ rows)) _ h in
      inr (clean.0, sym (ap (λ t. t.2) (done-injective _ _ clean.1)))

  saved_as-cases :
      (enabled : Bool) (row r : RolloutRule) (rows later : List RolloutRule)
      → saved_as site fields enabled row rows ≡ done (r, later)
      → (full_clean site fields (switched enabled row) ≡ true)
        × (later ≡ save (switched enabled row) rows)
  saved_as-cases enabled row r rows later h =
      let clean =
        check-passed (full_clean site fields (switched enabled row)) not_clean
          (done (switched enabled row, save (switched enabled row) rows)) _ h in
      (clean.0, sym (ap (λ t. t.1) (done-injective _ _ clean.1)))

  pub create_rollout-IsCreated :
      (definitions : List Definition) (pk : ℕ) (form : RolloutForm) (user : Actor) (r : RolloutRule)
      (made : Bool) (rows later : List RolloutRule)
      → create_rollout site fields definitions pk form user rows ≡ done (r, made, later)
      → IsCreated pk form user rows later
  unfolding create_rollout
  create_rollout-IsCreated definitions pk form user r made rows later h =
      let feature =
        bind-done (or_else does_not_exist (definition_of form.feature definitions)) _ _ h in
      let available =
        check-passed (is_available site feature.0) feature_unavailable _ _ feature.2 in
      let type_ =
        bind-done (or_else unknown_audience (audience_rule_type form.audience)) _ _ available.1 in
      let checks = bind-done (check_form site fields user type_.0 form) _ _ type_.2 in
      let free =
        check-passed
          (not form.enabled
            || not (is_some (active_conflict form.feature (text_or "" form.page) none rows)))
          active_conflict_found _ _ checks.2 in
      let reasoned = check-passed (is_reason form.reason) reason_too_short _ _ free.1 in
      let new = new_rollout pk type_.0 form in
      record {
        rule_type = type_.0;
        checked = checks.1;
        free = free.0;
        result = saved-cases new rows later (retried_draft new rows) r made reasoned.1;
      }

  pub stop_rollout-IsStopped :
      (definitions : List Definition) (rule_id : ℕ) (reason : String) (r : RolloutRule)
      (rows later : List RolloutRule)
      → stop_rollout site fields definitions rule_id reason rows ≡ done (r, later)
      → IsStopped rule_id rows later
  unfolding stop_rollout
  stop_rollout-IsStopped definitions rule_id reason r rows later h =
      let row = bind-done (or_else does_not_exist (find (has_pk rule_id) rows)) _ _ h in
      let feature =
        bind-done (or_else does_not_exist (definition_of row.0.feature definitions)) _ _ row.2 in
      let available =
        check-passed (is_available site feature.0) feature_unavailable _ _ feature.2 in
      let enabled = check-passed row.0.rule.enabled already_stopped _ _ available.1 in
      let reasoned = check-passed (is_reason reason) reason_too_short _ _ enabled.1 in
      let last = saved_as-cases false row.0 r rows later reasoned.1 in
      record {
        row = row.0;
        found = or_else-done does_not_exist (find (has_pk rule_id) rows) row.0 row.1;
        clean = last.0;
        result = last.1;
      }

  pub start_rollout-IsStarted :
      (definitions : List Definition) (groups : List Group) (rule_id : ℕ) (reason : String)
      (user : Actor) (r : RolloutRule) (rows later : List RolloutRule)
      → start_rollout site fields definitions groups rule_id reason user rows ≡ done (r, later)
      → IsStarted groups rule_id user rows later
  unfolding start_rollout
  start_rollout-IsStarted definitions groups rule_id reason user r rows later h =
      let row = bind-done (or_else does_not_exist (find (has_pk rule_id) rows)) _ _ h in
      let feature =
        bind-done (or_else does_not_exist (definition_of row.0.feature definitions)) _ _ row.2 in
      let stopped = check-passed (not row.0.rule.enabled) already_started _ _ feature.2 in
      let available =
        check-passed (is_available site feature.0) feature_unavailable _ _ stopped.1 in
      let draft = check-passed (is_never_started_draft row.0) not_a_draft _ _ available.1 in
      let checks = bind-done (check_row site fields groups user row.0) _ _ draft.1 in
      let free =
        check-passed
          (not (is_some (active_conflict row.0.feature row.0.rule.page (some row.0.rule.pk) rows)))
          active_conflict_found _ _ checks.2 in
      let reasoned = check-passed (is_reason reason) reason_too_short _ _ free.1 in
      let last = saved_as-cases true row.0 r rows later reasoned.1 in
      record {
        row = row.0;
        found = or_else-done does_not_exist (find (has_pk rule_id) rows) row.0 row.1;
        draft = draft.0;
        checked = checks.1;
        free = free.0;
        clean = last.0;
        result = last.1;
      }
