-- ===== src/Rollouts/Switch.antt =====
-- backend/featureflags/admin_services.py: `stop_rollout`, `start_rollout` and `add_design_tester`. The
-- transaction leaves the table as it was where it raises.
use Prim.Native.Char.{code}
use jou_tak_web.Prelude.{
  ℕ, String, Bool, true, false, ◌&&◌, ◌||◌, not, Option, none, some, List, [], ◌∷◌, ◌==◌, member,
  any, all, find, keep_if, length, nat_eq, leb, ltb, is_some, if◌then◌else◌,
}
use jou_tak_web.Prelude.Text.{strip, int_of_text}
use jou_tak_web.Values.{Value, str, int, non_empty}
use jou_tak_web.Registry.{Site, is_audience_allowed}
use jou_tak_web.Features.Model.{Rule, RuleType, Group, audience}
use jou_tak_web.Rollouts.Model.{
  RolloutRule, Definition, Outcome, done, refused, ◌>>=◌, ◌>>◌, check, or_else, Actor, Fields,
  is_never_started_draft, active_conflict, definition_of, is_reason, page_choices, value_choices,
  full_clean, is_available, required_slug, has_pk, save, switched, does_not_exist,
  feature_unavailable, audience_not_allowed, permission_missing, value_not_allowed,
  page_not_allowed, group_required, no_groups, no_users, no_percentage, active_conflict_found,
  reason_too_short, not_clean, already_stopped, already_started, not_a_draft, group_ids_corrupt,
}

-- `raw.strip().isdigit()`, and `int` of it; a number that is not positive is refused.
abbrev positive_id : Option (Bool × ℕ) → Outcome ℕ
positive_id none = refused group_ids_corrupt
positive_id (some (true, n)) = refused group_ids_corrupt
positive_id (some (false, n)) = if nat_eq n 0 then refused group_ids_corrupt else done n

abbrev is_digit : ℕ → Bool
is_digit c = leb b'0' c && leb c b'9'

abbrev all_digits : String → Bool
all_digits String.[] = true
all_digits (String.◌∷◌ c s) = is_digit (code c) && all_digits s

unfoldable pub group_id : Value → Outcome ℕ
group_id (int n) = positive_id (some (false, n))
group_id (str s) =
    if non_empty (strip s) && all_digits (strip s)
    then positive_id (int_of_text (strip s))
    else refused group_ids_corrupt
group_id _ = refused group_ids_corrupt

abbrev insert_id : ℕ → List ℕ → List ℕ
insert_id n [] = n ∷ []
insert_id n (m ∷ ms) =
    let later = insert_id n ms in
    if nat_eq n m then m ∷ ms else if ltb n m then n ∷ m ∷ ms else m ∷ later

-- `_validated_group_ids`: the set of the numbers, sorted.
unfoldable pub validated_group_ids : List Value → Outcome (List ℕ)
unfolding group_id
validated_group_ids [] = done []
validated_group_ids (v ∷ vs) = do
  first ← group_id v
  rest ← validated_group_ids vs
  done (insert_id first rest)

abbrev is_type : RuleType → RuleType → Bool
is_type t u = audience t == audience u

abbrev is_user_rule : RuleType → Bool
is_user_rule t = is_type t RuleType.user_allowlist || is_type t RuleType.user_denylist

abbrev is_broad : RuleType → Bool
is_broad t =
    is_type t RuleType.authenticated || is_type t RuleType.percentage || is_type t RuleType.everyone

-- The permissions that starting a rule of the type needs.
unfoldable pub may_start : Actor → RuleType → Bool
may_start user t =
    (not (is_broad t) || user.has_perm "featureflags.change_featuredefinition")
    && (not (is_user_rule t) || user.has_perm "auth.view_user")
    && (not (is_type t RuleType.group) || user.has_perm "featureflags.view_featuregroup")

abbrev is_nil {ℓ} : {A : Type ℓ} → List A → Bool
is_nil [] = true
is_nil (x ∷ xs) = false

abbrev is_percent : Option ℕ → Bool
is_percent none = false
is_percent (some p) = leb p 100

-- The groups of a rule, all of which must exist.
unfoldable pub selected_groups : List Group → Rule → Outcome (List Group)
unfolding validated_group_ids
selected_groups groups r =
    if is_type r.rule_type RuleType.group
    then (validated_group_ids r.group_ids >>= λ ids.
        (let chosen = keep_if (λ (g : Group). any (nat_eq g.pk) ids) groups in
          check (not (is_nil ids) && nat_eq (length chosen) (length ids)) no_groups >> done chosen))
    else done []

-- `selected_group_slugs == {required_slug}`
abbrev all_of : String → List Group → Bool
all_of slug chosen = not (is_nil chosen) && all (λ (g : Group). g.slug == slug) chosen

module _ (site : Site) (fields : Fields) where
  -- The checks of the row against the registry, the permissions and the groups.
  unfoldable pub check_row : List Group → Actor → RolloutRule → Outcome (Unit {0})
  unfolding may_start selected_groups value_choices page_choices
  check_row groups user r =
      let t = r.rule.rule_type in
      let needs = non_empty (required_slug site r.feature) && is_type t RuleType.group in
      do
        check (is_audience_allowed site r.feature (audience t)) audience_not_allowed
        check (may_start user t) permission_missing
        check (not (is_user_rule t) || not (is_nil r.rule.actor_ids)) no_users
        chosen ← selected_groups groups r.rule
        check (not (is_type t RuleType.percentage) || is_percent r.rule.percentage) no_percentage
        check (member r.rule.value (value_choices site r.feature)) value_not_allowed
        check (member r.rule.page (page_choices site r.feature)) page_not_allowed
        check (not needs || all_of (required_slug site r.feature) chosen) group_required

  -- The last steps of starting and stopping.
  abbrev pub saved_as :
      Bool → RolloutRule → List RolloutRule → Outcome (RolloutRule × List RolloutRule)
  saved_as enabled r rows = do
    check (full_clean site fields (switched enabled r)) not_clean
    done (switched enabled r, save (switched enabled r) rows)

  -- `stop_rollout`
  unfoldable pub stop_rollout :
      List Definition
      → (rule_id : ℕ) → (reason : String) → List RolloutRule
      → Outcome (RolloutRule × List RolloutRule)
  unfolding save
  stop_rollout definitions rule_id reason rows = do
    r ← or_else does_not_exist (find (has_pk rule_id) rows)
    feature ← or_else does_not_exist (definition_of r.feature definitions)
    check (is_available site feature) feature_unavailable
    check r.rule.enabled already_stopped
    check (is_reason reason) reason_too_short
    saved_as false r rows

  -- `start_rollout`
  unfoldable pub start_rollout :
      List Definition
      → List Group
      → (rule_id : ℕ) → (reason : String) → Actor
      → List RolloutRule
      → Outcome (RolloutRule × List RolloutRule)
  unfolding save check_row active_conflict is_never_started_draft
  start_rollout definitions groups rule_id reason user rows = do
    r ← or_else does_not_exist (find (has_pk rule_id) rows)
    feature ← or_else does_not_exist (definition_of r.feature definitions)
    check (not r.rule.enabled) already_started
    check (is_available site feature) feature_unavailable
    check (is_never_started_draft r) not_a_draft
    check_row groups user r
    check (not (is_some (active_conflict r.feature r.rule.page (some r.rule.pk) rows)))
        active_conflict_found
    check (is_reason reason) reason_too_short
    saved_as true r rows

-- A user, as far as `add_design_tester` looks at it.
pub record Target : Type 0 where
  pub pk : ℕ
  pub is_active : Bool

abbrev with_member : ℕ → Group → Group
with_member uid g = if any (nat_eq uid) g.members then g else record g { members = uid ∷ g.members }

abbrev put_member : String → ℕ → List Group → List Group
put_member slug uid [] = []
put_member slug uid (g ∷ gs) =
    let rest = g ∷ put_member slug uid gs in if g.slug == slug then with_member uid g ∷ gs else rest

-- `add_design_tester`, by the groups that it leaves; the log entry is left out.
unfoldable pub add_design_tester :
    String → Target → (reason : String) → Actor → List Group → Outcome (List Group)
add_design_tester design_slug target reason user groups = do
  check (user.has_perm "featureflags.change_featuregroup" && user.has_perm "auth.view_user")
      permission_missing
  check target.is_active feature_unavailable
  check (is_reason reason) reason_too_short
  group ← or_else does_not_exist (find (λ (g : Group). g.slug == design_slug) groups)
  done (put_member design_slug target.pk groups)
