-- ===== src/Rollouts/Create.antt =====
-- backend/featureflags/admin_services.py: `create_rollout`. The transaction leaves the table as it was where it
-- raises; the key of a new row is the database's.
use Prim.Native.Char.{code}
use Prim.Native.String.{◌++◌}
use jou_tak_web.Prelude.{
  ℕ, zero, suc, String, Bool, true, false, ◌&&◌, ◌||◌, not, Option, none, some, List, [], ◌∷◌, map,
  ◌==◌, member, all, find, nat_eq, leb, ltb, is_some, if◌then◌else◌,
}
use jou_tak_web.Prelude.Text.{decimal}
use jou_tak_web.Values.{Value, str, int, bool, null, non_empty}
use jou_tak_web.Registry.{Site, canonical_variant_token, is_audience_allowed}
use jou_tak_web.Features.Model.{RuleType, Group, audience}
use jou_tak_web.Rollouts.Model.{
  RolloutRule, Definition, Outcome, done, ◌>>=◌, ◌>>◌, check, or_else, Actor, Fields,
  is_never_started_draft, active_conflict, definition_of, is_reason, page_choices, value_choices,
  full_clean, is_available, required_slug, does_not_exist, feature_unavailable, unknown_audience,
  audience_not_allowed, permission_missing, value_not_allowed, page_not_allowed, group_required,
  no_groups, no_users, no_percentage, active_conflict_found, reason_too_short, not_clean,
}

-- The `cleaned_data` of the form.
pub record RolloutForm : Type 0 where
  pub feature : String
  pub page : Option String
  pub audience : String
  pub value : Value
  pub target_groups : List Group
  pub target_users : List ℕ
  pub percentage : Option ℕ
  pub enabled : Bool
  pub reason : String
  pub name : Option String

-- `AUDIENCE_RULE_TYPES`
unfoldable pub audience_rule_type : String → Option RuleType
audience_rule_type a =
    if a == "group"
    then some RuleType.group
    else if a == "users"
    then some RuleType.user_allowlist
    else if a == "staff"
    then some RuleType.staff
    else if a == "authenticated"
    then some RuleType.authenticated
    else if a == "percentage"
    then some RuleType.percentage
    else if a == "everyone"
    then some RuleType.everyone
    else none

-- `RolloutAudience.CHOICES`
unfoldable pub audience_label : String → String
audience_label a =
    if a == "group"
    then "Группа тестировщиков"
    else if a == "users"
    then "Выбранные пользователи"
    else if a == "staff"
    then "Сотрудники"
    else if a == "authenticated"
    then "Все авторизованные"
    else if a == "percentage"
    then "Процент аудитории"
    else "Все посетители"

-- `RolloutAudience.DANGEROUS`
abbrev pub is_dangerous : String → Bool
is_dangerous a = member a ("authenticated" ∷ "percentage" ∷ "everyone" ∷ [])

abbrev pub text_or : String → Option String → String
text_or default none = default
text_or default (some s) = if non_empty s then s else default

-- `s[:n]`
abbrev pub first_of : ℕ → String → String
first_of zero s = ""
first_of (suc n) String.[] = ""
first_of (suc n) (String.◌∷◌ c s) = String.◌∷◌ c (first_of n s)

-- `sorted` of numbers, and of texts by their characters.
abbrev insert_number : ℕ → List ℕ → List ℕ
insert_number n [] = n ∷ []
insert_number n (m ∷ ms) =
    let later = insert_number n ms in if leb n m then n ∷ m ∷ ms else m ∷ later

unfoldable pub sorted_numbers : List ℕ → List ℕ
sorted_numbers [] = []
sorted_numbers (n ∷ ns) = insert_number n (sorted_numbers ns)

abbrev text_leb : String → String → Bool
text_leb String.[] t = true
text_leb (String.◌∷◌ c s) String.[] = false
text_leb (String.◌∷◌ c s) (String.◌∷◌ d t) =
    let later = text_leb s t in if nat_eq (code c) (code d) then later else ltb (code c) (code d)

abbrev insert_text : String → List String → List String
insert_text s [] = s ∷ []
insert_text s (t ∷ ts) =
    let later = insert_text s ts in if text_leb s t then s ∷ t ∷ ts else t ∷ later

unfoldable pub sorted_texts : List String → List String
sorted_texts [] = []
sorted_texts (t ∷ ts) = insert_text t (sorted_texts ts)

-- Equality of stored columns.
abbrev same_value : Value → Value → Bool
same_value (int a) (int b) = nat_eq a b
same_value (str a) (str b) = a == b
same_value (bool true) (bool b) = b
same_value (bool false) (bool b) = not b
same_value null null = true
same_value _ _ = false

abbrev same_values : List Value → List Value → Bool
same_values [] [] = true
same_values (x ∷ xs) (y ∷ ys) = same_value x y && same_values xs ys
same_values _ _ = false

abbrev same_number : Option ℕ → Option ℕ → Bool
same_number none none = true
same_number (some a) (some b) = nat_eq a b
same_number _ _ = false

-- The row that `existing` must equal to be the draft that is asked for again.
abbrev is_same_draft : RolloutRule → RolloutRule → Bool
is_same_draft new existing =
    existing.feature == new.feature
    && existing.name == new.name
    && nat_eq existing.priority new.priority
    && audience existing.rule.rule_type == audience new.rule.rule_type
    && existing.rule.value == new.rule.value
    && existing.rule.page == new.rule.page
    && same_values existing.rule.actor_ids new.rule.actor_ids
    && same_values existing.rule.group_ids new.rule.group_ids
    && same_number existing.rule.percentage new.rule.percentage
    && not existing.rule.enabled

-- The first matching draft that was never started.
unfoldable pub retried_draft : RolloutRule → List RolloutRule → Option RolloutRule
unfolding is_never_started_draft
retried_draft new rows =
    if new.rule.enabled
    then none
    else find (λ (r : RolloutRule). is_same_draft new r && is_never_started_draft r) rows

abbrev is_type : RuleType → RuleType → Bool
is_type t u = audience t == audience u

abbrev is_percent : Option ℕ → Bool
is_percent none = false
is_percent (some p) = leb p 100

abbrev is_nil {ℓ} : {A : Type ℓ} → List A → Bool
is_nil [] = true
is_nil (x ∷ xs) = false

-- The permissions that an audience needs.
unfoldable pub may_target : Actor → String → Bool
may_target user audience =
    (not (is_dangerous audience) || user.has_perm "featureflags.change_featuredefinition")
    && (not (audience == "users") || user.has_perm "auth.view_user")
    && (not (audience == "group") || user.has_perm "featureflags.view_featuregroup")

-- The row that is created for a form of the feature, with the rule type of its audience.
unfoldable pub new_rollout : ℕ → RuleType → RolloutForm → RolloutRule
unfolding audience_label sorted_numbers sorted_texts
new_rollout pk rule_type form = record {
  feature = form.feature;
  name = first_of 120 (text_or (form.feature ++ ": " ++ audience_label form.audience) form.name);
  priority = 100;
  rule = record {
    pk = pk;
    rule_type = rule_type;
    value = canonical_variant_token form.value;
    page = text_or "" form.page;
    actor_ids =
        if is_type rule_type RuleType.user_allowlist
        then map str (sorted_texts (map decimal form.target_users))
        else [];
    group_ids =
        if is_type rule_type RuleType.group
        then map int (sorted_numbers (map (λ (g : Group). g.pk) form.target_groups))
        else [];
    percentage = if is_type rule_type RuleType.percentage then form.percentage else none;
    enabled = form.enabled;
  };
  history = form.enabled ∷ [];
}

module _ (site : Site) (fields : Fields) where
  -- The checks of the form against the registry and the permissions.
  unfoldable pub check_form : Actor → RuleType → RolloutForm → Outcome (Unit {0})
  unfolding may_target value_choices page_choices
  check_form user rule_type form =
      let groups_match =
        all (λ (g : Group). g.slug == required_slug site form.feature) form.target_groups in
      let needs = non_empty (required_slug site form.feature) && is_type rule_type RuleType.group in
      do
        check (is_audience_allowed site form.feature (audience rule_type)) audience_not_allowed
        check (may_target user form.audience) permission_missing
        check (member (canonical_variant_token form.value) (value_choices site form.feature))
            value_not_allowed
        check (member (text_or "" form.page) (page_choices site form.feature)) page_not_allowed
        check (not needs || not (is_nil form.target_groups) && groups_match) group_required
        check (not (is_type rule_type RuleType.group) || not (is_nil form.target_groups)) no_groups
        check (not (is_type rule_type RuleType.user_allowlist) || not (is_nil form.target_users))
            no_users
        check (not (is_type rule_type RuleType.percentage) || is_percent form.percentage)
            no_percentage

  -- A new row, or the draft that an equal request has created: the row, whether it is new, and the table.
  abbrev pub saved :
      RolloutRule
      → List RolloutRule
      → Option RolloutRule
      → Outcome (RolloutRule × Bool × List RolloutRule)
  saved new rows (some existing) = done (existing, false, rows)
  saved new rows none = do
    check (full_clean site fields new) not_clean
    done (new, true, new ∷ rows)

  -- `create_rollout`
  unfoldable pub create_rollout :
      List Definition
      → (pk : ℕ) → RolloutForm
      → Actor
      → List RolloutRule
      → Outcome (RolloutRule × Bool × List RolloutRule)
  unfolding audience_rule_type check_form new_rollout active_conflict retried_draft
  create_rollout definitions pk form user rows = do
    feature ← or_else does_not_exist (definition_of form.feature definitions)
    check (is_available site feature) feature_unavailable
    rule_type ← or_else unknown_audience (audience_rule_type form.audience)
    check_form user rule_type form
    check
        (not form.enabled
          || not (is_some (active_conflict form.feature (text_or "" form.page) none rows)))
        active_conflict_found
    check (is_reason form.reason) reason_too_short
    saved (new_rollout pk rule_type form) rows (retried_draft (new_rollout pk rule_type form) rows)
