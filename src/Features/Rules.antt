-- ===== src/Features/Rules.antt =====
-- backend/featureflags/services.py: which rules match a context, and which stored value a database
-- override gives. SHA-256 is a parameter: `digest payload` is `int(sha256(payload).hexdigest()[:8], 16)`.
pub mod Rollout
use jou_tak_web.Prelude.{
  ℕ, ◌%◌, min, max, String, Bool, true, false, ◌&&◌, not, Option, none, some, List, [], ◌∷◌, map,
  ◌==◌, member, any, nat_eq, ltb, or_else, is_some, if◌then◌else◌,
}
use jou_tak_web.Prelude.Text.{decimal}
use jou_tak_web.Values.{Value, shown, truthy, non_empty, Parsed, int_of, number, negative, raised}
use jou_tak_web.Features.Model.{
  RuleType, OverrideScope, Rule, Override, Feature, Group, Context, user_id, is_staff, has_identity,
  identity_key,
}
use Prim.Native.String.{◌++◌}

unfoldable pub bucket_percent : (String → ℕ) → String → String → String → ℕ
bucket_percent digest identity_key feature_key page =
    digest (feature_key ++ ":" ++ page ++ ":" ++ identity_key) % 100

abbrev add_id : Parsed → Option (List Parsed) → Option (List Parsed)
add_id p none = none
add_id raised (some ids) = none
add_id p (some ids) = some (p ∷ ids)

-- `[int(gid) for gid in ids if gid]`: `none` where `int` raises. A negative number is the key of no row.
unfoldable pub parsed_ids : List Value → Option (List Parsed)
parsed_ids [] = some []
parsed_ids (v ∷ vs) = let rest = parsed_ids vs in if truthy v then add_id (int_of v) rest else rest

abbrev is_id : ℕ → Parsed → Bool
is_id pk (number n) = nat_eq pk n
is_id pk (negative n) = false
is_id pk raised = false

-- `FeatureGroup.objects.filter(pk__in=ids, members__pk=uid).exists()`
unfoldable pub in_some_group : List Group → List Parsed → ℕ → Bool
in_some_group groups ids uid =
    any (λ (g : Group). any (is_id g.pk) ids && any (nat_eq uid) g.members) groups

-- `str(...) in {str(v) for v in rule.actor_ids}`
abbrev pub listed : String → List Value → Bool
listed key ids = member key (map shown ids)

abbrev is_listed_user : Option ℕ → List Value → Bool
is_listed_user none ids = false
is_listed_user (some uid) ids = listed (decimal uid) ids

abbrev anonymous_or_empty : Option String → String
anonymous_or_empty none = ""
anonymous_or_empty (some a) = a

abbrev is_listed_anonymous : String → List Value → Bool
is_listed_anonymous anonymous_id ids = non_empty anonymous_id && listed anonymous_id ids

abbrev matches_ids : List Group → Option (List Parsed) → ℕ → Bool
matches_ids groups none uid = false
matches_ids groups (some []) uid = false
matches_ids groups (some (p ∷ ids)) uid = in_some_group groups (p ∷ ids) uid

abbrev matches_group : List Group → Option ℕ → List Value → Bool
matches_group groups none ids = false
matches_group groups (some uid) ids = matches_ids groups (parsed_ids ids) uid

-- `max(0, min(int(rule.percentage or 0), 100))`
abbrev pub clamped : Option ℕ → ℕ
clamped none = 0
clamped (some n) = max 0 (min n 100)

module _ (digest : String → ℕ) (groups : List Group) where
  abbrev in_bucket : String → Option ℕ → Context → Bool
  in_bucket key percentage c =
      if has_identity c
      then ltb (bucket_percent digest (identity_key c) key c.page) (clamped percentage)
      else false

  abbrev type_matches : RuleType → Feature → Rule → Context → Bool
  type_matches RuleType.everyone f r c = true
  type_matches RuleType.authenticated f r c = is_some (user_id c)
  type_matches RuleType.staff f r c = is_staff c
  type_matches RuleType.group f r c = matches_group groups (user_id c) r.group_ids
  type_matches RuleType.user_allowlist f r c = is_listed_user (user_id c) r.actor_ids
  type_matches RuleType.user_denylist f r c = is_listed_user (user_id c) r.actor_ids
  type_matches RuleType.anonymous_allowlist f r c =
      is_listed_anonymous (anonymous_or_empty c.anonymous_id) r.actor_ids
  type_matches RuleType.anonymous_denylist f r c =
      is_listed_anonymous (anonymous_or_empty c.anonymous_id) r.actor_ids
  type_matches RuleType.percentage f r c = in_bucket f.key r.percentage c
  type_matches (RuleType.unknown s) f r c = false

  -- `_rule_matches`; `rule.feature` is the feature whose rules are walked.
  unfoldable pub rule_matches : Feature → Rule → Context → Bool
  unfolding bucket_percent
  rule_matches f r c =
      if not r.enabled
      then false
      else if non_empty r.page && not (r.page == c.page)
      then false
      else type_matches r.rule_type f r c

-- The dictionary `matches` of `_db_override`, one field for each scope.
pub record Matches : Type 0 where
  pub global : Option String
  pub user : Option String
  pub anonymous : Option String

abbrev is_user_scope : Option ℕ → String → Bool
is_user_scope none scope_value = false
is_user_scope (some uid) scope_value = scope_value == decimal uid

abbrev is_anonymous_scope : Option ℕ → Option String → String → Bool
is_anonymous_scope (some uid) a scope_value = false
is_anonymous_scope none none scope_value = false
is_anonymous_scope none (some a) scope_value = non_empty a && scope_value == a

abbrev collect_scope : OverrideScope → Context → Override → Matches → Matches
collect_scope OverrideScope.global c o m = record m { global = some o.value }
collect_scope OverrideScope.user c o m =
    if is_user_scope (user_id c) o.scope_value then record m { user = some o.value } else m
collect_scope OverrideScope.anonymous c o m =
    if is_anonymous_scope (user_id c) c.anonymous_id o.scope_value
    then record m { anonymous = some o.value }
    else m
collect_scope (OverrideScope.unknown s) c o m = m

unfoldable pub collect : Context → List Override → Matches → Matches
collect c [] m = m
collect c (o ∷ os) m = collect c os (if o.enabled then collect_scope o.scope_type c o m else m)

unfoldable pub db_override : Feature → Context → Option String
db_override f c =
    let m = collect c f.overrides (record { global = none; user = none; anonymous = none }) in
    or_else m.user (or_else m.anonymous m.global)
