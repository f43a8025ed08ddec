-- ===== src/Rollouts/Steps/Once.antt =====
-- A rollout is started at most once.
use jou_tak_web.Prelude.{
  ℕ, String, ◌≡◌, ◌≢◌, refl, sym, ◌∙◌, subst, Bool, true, false, inl, inr, some, List, [], ◌∷◌,
  ◌++◌, any, find, nat_eq, arith, All, find_sound, if-cases,
}
use jou_tak_web.Registry.{Site}
use jou_tak_web.Features.Model.{Group}
use jou_tak_web.Rollouts.Model.{
  RolloutRule, Definition, done, Actor, Fields, has_pk, save, switched, is_never_started_draft,
}
use jou_tak_web.Rollouts.Create.{new_rollout}
use jou_tak_web.Rollouts.Switch.{start_rollout}
use jou_tak_web.Rollouts.Disjoint.{All-save}
use jou_tak_web.Rollouts.Steps.Kept.{All-find}
use jou_tak_web.Rollouts.Steps.{
  Step, creates, stops, starts, Reaches, here, then_, create_rollout-IsCreated,
  stop_rollout-IsStopped, start_rollout-IsStarted,
}

abbrev was_enabled : List Bool → Bool
was_enabled history = any (λ b. b) history

abbrev IsOld : ℕ → RolloutRule → Type 0
IsOld pk r = nat_eq r.rule.pk pk ≡ true → was_enabled r.history ≡ true

-- The row of the key is there, and was enabled before.
abbrev WasStarted : ℕ → List RolloutRule → Type 0
WasStarted pk rows = (any (has_pk pk) rows ≡ true) × All (IsOld pk) rows

any-save :
    (pk : ℕ) (new : RolloutRule) (rows : List RolloutRule)
    → any (has_pk pk) (save new rows) ≡ any (has_pk pk) rows
unfolding save
any-save pk new [] = refl
any-save pk new (row ∷ rows) = ground (arith, any-save pk new rows)

IsOld-save :
    (new : RolloutRule) (rows : List RolloutRule)
    → was_enabled new.history ≡ true
    → All (IsOld new.rule.pk) (save new rows)
unfolding save
IsOld-save new [] old = tt
IsOld-save new (row ∷ rows) old =
    let rest = IsOld-save new rows old in
    if-cases (All (IsOld new.rule.pk)) (has_pk new.rule.pk row) (new ∷ save new rows)
      (row ∷ save new rows) (λ same. ((λ is_it. old), rest))
      (λ differ. ((λ is_it. ground (arith, is_it, differ)), rest))

was_enabled-later :
    (history : List Bool) (b : Bool)
    → was_enabled history ≡ true
    → was_enabled (history ++ (b ∷ [])) ≡ true
was_enabled-later [] b h = cc
was_enabled-later (true ∷ later) b h = refl
was_enabled-later (false ∷ later) b h = was_enabled-later later b h

was_enabled-now : (history : List Bool) → was_enabled (history ++ (true ∷ [])) ≡ true
was_enabled-now [] = refl
was_enabled-now (true ∷ later) = refl
was_enabled-now (false ∷ later) = was_enabled-now later

old-no-draft : (r : RolloutRule) → was_enabled r.history ≡ true → is_never_started_draft r ≡ false
unfolding is_never_started_draft
old-no-draft r h = ground arith

find-any :
    (p : RolloutRule → Bool) (rows : List RolloutRule) (r : RolloutRule)
    → find p rows ≡ some r
    → any p rows ≡ true
find-any p [] r h = cc
find-any p (row ∷ rows) r h = ground (arith, find-any p rows r)

same_pk : (n pk : ℕ) → nat_eq n pk ≡ true → n ≡ pk
same_pk n pk h = ground arith

saved-WasStarted :
    (pk : ℕ) (b : Bool) (row : RolloutRule) (rows : List RolloutRule)
    → WasStarted pk rows
    → IsOld pk row
    → WasStarted pk (save (switched b row) rows)
saved-WasStarted pk b row rows old row_old = (
  any-save pk (switched b row) rows ∙ old.0,
  All-save (IsOld pk) (switched b row) rows old.1
      (λ is_it. was_enabled-later row.history b (row_old is_it)),
)

module _ (site : Site) (fields : Fields) where
  Step-WasStarted :
      (pk : ℕ) (rows later : List RolloutRule)
      → Step site fields rows later
      → WasStarted pk rows
      → WasStarted pk later
  unfolding new_rollout
  Step-WasStarted pk rows later (creates definitions own form user r made fresh h) old =
      let created =
        create_rollout-IsCreated site fields definitions own form user r made rows later h in
      elim created.result [
        | inl same ↦ subst (WasStarted pk) (sym same) old
        | inr added ↦ subst (WasStarted pk) (sym added.1) (
          ground (arith, old.0),
          (
            (λ is_it.
                let clash = subst (λ k. any (has_pk k) rows ≡ false) (same_pk own pk is_it) fresh in
                grind (arith, clash, old.0)),
            old.1,
          ),
        )
      ]
  Step-WasStarted pk rows later (stops definitions rule_id reason r h) old =
      let stopped = stop_rollout-IsStopped site fields definitions rule_id reason r rows later h in
      subst (WasStarted pk) (sym stopped.result) (
        saved-WasStarted pk false stopped.row rows old
          (All-find (IsOld pk) (has_pk rule_id) rows stopped.row old.1 stopped.found))
  Step-WasStarted pk rows later (starts definitions groups rule_id reason user r h) old =
      let started =
        start_rollout-IsStarted site fields definitions groups rule_id reason user r rows later h in
      subst (WasStarted pk) (sym started.result) (
        saved-WasStarted pk true started.row rows old
          (All-find (IsOld pk) (has_pk rule_id) rows started.row old.1 started.found))

  Reaches-WasStarted :
      (pk : ℕ) (rows later : List RolloutRule)
      → Reaches site fields rows later
      → WasStarted pk rows
      → WasStarted pk later
  Reaches-WasStarted pk rows _ here old = old
  Reaches-WasStarted pk rows _ (then_ {middle} later run step) old =
      Step-WasStarted pk middle later step (Reaches-WasStarted pk rows middle run old)

  -- A rollout that was started is never started again, whatever is created, stopped and started in between.
  pub start_rollout-once :
      (definitions definitions_then : List Definition) (groups groups_then : List Group)
      (rule_id : ℕ) (reason reason_then : String) (user user_then : Actor) (r r_then : RolloutRule)
      (rows later final after : List RolloutRule)
      → start_rollout site fields definitions groups rule_id reason user rows ≡ done (r, later)
      → Reaches site fields later final
      → start_rollout site fields definitions_then groups_then rule_id reason_then user_then final
        ≢ done (r_then, after)
  start_rollout-once definitions definitions_then groups groups_then rule_id reason reason_then user
        user_then r r_then rows later final after first run again =
      let one =
        start_rollout-IsStarted site fields definitions groups rule_id reason user r rows later
          first in
      let own_pk =
        same_pk one.row.rule.pk rule_id (find_sound (has_pk rule_id) rows one.row one.found) in
      let found = find-any (has_pk rule_id) rows one.row one.found in
      let started : WasStarted rule_id (save (switched true one.row) rows) = (
        any-save rule_id (switched true one.row) rows ∙ found,
        subst (λ k. All (IsOld k) (save (switched true one.row) rows)) own_pk
            (IsOld-save (switched true one.row) rows (was_enabled-now one.row.history)),
      ) in
      let old =
        Reaches-WasStarted rule_id later final run
          (subst (WasStarted rule_id) (sym one.result) started) in
      let two =
        start_rollout-IsStarted site fields definitions_then groups_then rule_id reason_then
          user_then r_then final after again in
      let own = find_sound (has_pk rule_id) final two.row two.found in
      let before = All-find (IsOld rule_id) (has_pk rule_id) final two.row old.1 two.found own in
      let no_draft = old-no-draft two.row before in grind (arith, no_draft, two.draft)
