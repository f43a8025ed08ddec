-- ===== src/Features/Policy.antt =====
-- backend/featureflags/services.py: stored values, safe defaults, and the rollout policy applied to a
-- candidate value.
use jou_tak_web.Prelude.{
  ℕ, String, Bool, true, false, ◌&&◌, Option, none, some, List, [], ◌∷◌, ◌==◌, member, any, nat_eq,
  find, if◌then◌else◌,
}
use jou_tak_web.Prelude.Assoc.{lookup, insert}
use jou_tak_web.Prelude.Text.{decimal}
use jou_tak_web.Values.{Value, bool, str, shown, normalized, non_empty}
use jou_tak_web.Registry.{
  Site, RolloutPolicy, canonical_variant_token, get_default_value, get_rollout_policy,
  is_valid_override_value,
}
use jou_tak_web.Features.Model.{
  RuleType, Rule, Feature, Group, Context, State, audience, user_id, is_staff,
}
use jou_tak_web.Features.Rules.{listed}

-- Where a candidate value comes from.
pub data Source : Type 0 where
  request_override db_override sticky rule : Source

-- `_coerce_value`; `none` is `ValueError`.
unfoldable pub coerce_text : Value → Option Value
coerce_text v =
    if member (normalized v) ("1" ∷ "true" ∷ "yes" ∷ "on" ∷ [])
    then some (bool true)
    else if member (normalized v) ("0" ∷ "false" ∷ "no" ∷ "off" ∷ [])
    then some (bool false)
    else none

abbrev coerce_boolean : Value → Option Value
coerce_boolean (bool b) = some (bool b)
coerce_boolean v = coerce_text v

unfoldable pub coerce_value : String → Value → Option Value
unfolding coerce_text
coerce_value kind v = if kind == "boolean" then coerce_boolean v else some (str (shown v))

abbrev pub has_slug : String → ℕ → Group → Bool
has_slug slug uid g = g.slug == slug && any (nat_eq uid) g.members

abbrev pub group_pk : Option Group → Option ℕ
group_pk none = none
group_pk (some g) = some g.pk

-- The query of `_required_group_id_for_context`.
unfoldable pub group_id_for : List Group → String → ℕ → Option ℕ
group_id_for groups slug uid = group_pk (find (has_slug slug uid) groups)

module _ (site : Site) where
  unfoldable pub validated_feature_value : Feature → Value → Option Value
  validated_feature_value f v =
      if is_valid_override_value site f.key v then coerce_value f.kind v else none

  abbrev default_or_false : String → Value
  default_or_false key = elim (get_default_value site key) [ none ↦ bool false | some v ↦ v ]

  abbrev stored_default : Feature → Value
  stored_default f = elim (validated_feature_value f (str f.default_value)) [
    | none ↦ default_or_false f.key
    | some v ↦ v
  ]

  abbrev safe_of : Feature → Option RolloutPolicy → Value
  safe_of f none = stored_default f
  safe_of f (some policy) = elim policy.safe_default [ none ↦ stored_default f | some v ↦ v ]

  unfoldable pub safe_default : Feature → Value
  unfolding validated_feature_value
  safe_default f = safe_of f (get_rollout_policy site f.key)

  abbrev coerced_or_false : String → Option Value → Value
  coerced_or_false kind none = bool false
  coerced_or_false kind (some v) = elim (coerce_value kind v) [ none ↦ bool false | some w ↦ w ]

  unfoldable pub get_effective_default : Feature → Value
  unfolding safe_default
  get_effective_default f =
      if f.active then safe_default f else coerced_or_false f.kind (get_default_value site f.key)

  unfoldable pub rule_result : Feature → Rule → Value
  rule_result f r = elim r.rule_type [
    | RuleType.user_denylist ↦ safe_default f
    | RuleType.anonymous_denylist ↦ safe_default f
    | _ ↦ str r.value
  ]

module _ (groups : List Group) where
  -- The group is looked up once for each slug and kept in the context.
  abbrev cached_group : String → ℕ → Option (Option ℕ) → State → Option ℕ × State
  cached_group slug uid (some known) st = (known, st)
  cached_group slug uid none st =
      let id = group_id_for groups slug uid in
      (id, record st { required_group_ids = insert slug id st.required_group_ids })

  -- `_required_group_id_for_context`, of the policy's slug.
  abbrev required_group_for : Option String → Option ℕ → State → Option ℕ × State
  required_group_for none uid st = (none, st)
  required_group_for (some slug) none st = (none, st)
  required_group_for (some slug) (some uid) st =
      if non_empty slug
      then cached_group slug uid (lookup slug st.required_group_ids) st
      else (none, st)

  unfoldable pub required_group_id_for_context : Option String → Context → State → Option ℕ × State
  required_group_id_for_context slug c st = required_group_for slug (user_id c) st

  abbrev lists_group : Rule → Option ℕ × State → Bool × State
  lists_group r (none, st) = (false, st)
  lists_group r (some id, st) = (listed (decimal id) r.group_ids, st)

  abbrev needs_group : Option String → Bool
  needs_group none = false
  needs_group (some slug) = non_empty slug

  abbrev is_group : RuleType → Bool
  is_group RuleType.group = true
  is_group _ = false

  -- The last part of `_policy_value_allowed`: the policy's required group.
  abbrev group_allowed : RolloutPolicy → Context → Rule → State → Bool × State
  group_allowed policy c r st =
      if needs_group policy.required_group_slug
      then if is_group r.rule_type
        then lists_group r (required_group_id_for_context policy.required_group_slug c st)
        else (false, st)
      else (true, st)

  abbrev is_everyone : RuleType → Bool
  is_everyone RuleType.everyone = true
  is_everyone _ = false

  abbrev audience_allowed : RolloutPolicy → Context → Rule → State → Bool × State
  audience_allowed policy c r st =
      if member (audience r.rule_type) policy.allowed_audiences
      then if is_everyone r.rule_type
        then (policy.allow_public, st)
        else group_allowed policy c r st
      else (false, st)

  -- A guarded value, by where it comes from.
  abbrev guarded_allowed : RolloutPolicy → Context → Source → Option Rule → State → Bool × State
  guarded_allowed policy c sticky r st = (policy.allow_sticky, st)
  guarded_allowed policy c rule (some r) st = audience_allowed policy c r st
  guarded_allowed policy c _ _ st = (false, st)

  abbrev is_guarded : Option Value → Value → Bool
  is_guarded none v = false
  is_guarded (some g) v = canonical_variant_token v == canonical_variant_token g

  abbrev is_request : Source → Bool
  is_request request_override = true
  is_request _ = false

  abbrev policy_allows :
      Option RolloutPolicy → Value → Context → Source → Option Rule → State → Bool × State
  policy_allows none v c s r st = (false, st)
  policy_allows (some policy) v c s r st =
      if is_request s
      then (is_staff c && policy.allow_staff_preview, st)
      else if is_guarded policy.guarded_value v
      then guarded_allowed policy c s r st
      else (true, st)

  -- `_policy_value_allowed`
  unfoldable pub policy_value_allowed :
      Site → Feature → Value → Context → Source → Option Rule → State → Bool × State
  policy_value_allowed site f v c s r st = policy_allows (get_rollout_policy site f.key) v c s r st
