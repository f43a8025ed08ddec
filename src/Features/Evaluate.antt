-- ===== src/Features/Evaluate.antt =====
-- backend/featureflags/services.py: the evaluation of one definition, and of many flags.
pub mod Origin
pub mod Guard
pub mod Testers
pub mod Values
use jou_tak_web.Prelude.{
  ℕ, String, Bool, true, false, ◌&&◌, Option, none, some, List, [], ◌∷◌, ◌==◌, member, find,
  if◌then◌else◌,
}
use jou_tak_web.Prelude.Assoc.{Dict, lookup, insert}
use jou_tak_web.Values.{Value, bool, str, shown}
use jou_tak_web.Registry.{Site, Spec, get_default_value}
use jou_tak_web.Features.Model.{Rule, Feature, Group, State, Context}
use jou_tak_web.Features.Rules.{rule_matches, db_override}
use jou_tak_web.Features.Policy.{
  Source, request_override, db_override as from_db, sticky, rule, coerce_value, safe_default,
  validated_feature_value, rule_result, policy_value_allowed,
}
use jou_tak_web.Features.Assignments.{sticky_assignment, persist_assignment}

-- `Reason` of the OpenFeature library, as far as the code names it.
pub data Reason : Type 0 where
  static cached targeting_match default : Reason

-- The triple that `_evaluate_definition` returns.
pub record Decision : Type 0 where
  pub value : Value
  pub reason : Reason
  pub variant : String

abbrev pub decided : Value → Reason → Decision
decided v reason = record { value = v; reason = reason; variant = shown v }

-- A value is kept if the policy allows it.
abbrev pub kept : Value → Bool × State → Option Value × State
kept v (true, st) = (some v, st)
kept v (false, st) = (none, st)

abbrev pub text_value : Option String → Option Value
text_value none = none
text_value (some s) = some (str s)

-- `feature.key in overrides`, and the value there.
abbrev pub requested : Feature → Context → Option Value
requested f c = elim c.request_overrides [
  | none ↦ none
  | some overrides ↦ text_value (lookup f.key overrides)
]

abbrev pub next_rule : Option Value × State → (State → Option Value × State) → Option Value × State
next_rule (some v, st) rest = (some v, st)
next_rule (none, st) rest = rest st

abbrev value_or_false : Option Value → Value
value_or_false none = bool false
value_or_false (some v) = v

-- `_batch_load_definitions`, read at one key: the active row with it.
unfoldable pub active_definition : List Feature → String → Option Feature
active_definition features key = find (λ (f : Feature). f.key == key && f.active) features

-- `_coerce_value(kind, default)` of the registry's entry; the outer `none` is `ValueError`.
unfoldable pub registry_default : Site → String → Option (Option Value)
registry_default site key = elim (lookup key site.registry) [
  | none ↦ some none
  | some spec ↦ elim (get_default_value site key) [
    | none ↦ none
    | some v ↦ elim (coerce_value (if spec.kind == "variant" then "variant" else "boolean") v) [
      | none ↦ none
      | some w ↦ some (some w)
    ]
  ]
]

-- The value of a flag without a definition.
abbrev pub default_flag : Option (Option Value) → State → Option (Value × State)
default_flag none st = none
default_flag (some v) st = some (value_or_false v, st)

module _ (site : Site) (groups : List Group) (digest : String → ℕ) where
  abbrev pub admitted :
      Feature → Context → Source → Option Rule → Option Value → State → Option Value × State
  admitted f c s r none st = (none, st)
  admitted f c s r (some v) st = kept v (policy_value_allowed groups site f v c s r st)

  -- A stored value is validated, and then held to the policy.
  unfoldable pub candidate :
      Feature → Context → Source → Option Rule → Option Value → State → Option Value × State
  candidate f c s r none st = (none, st)
  candidate f c s r (some raw) st = admitted f c s r (validated_feature_value site f raw) st

  -- The loop over the rules: the first that matches and whose value is admitted.
  unfoldable pub eval_rules : Feature → Context → List Rule → State → Option Value × State
  eval_rules f c [] st = (none, st)
  eval_rules f c (r ∷ rs) st =
      let rest = eval_rules f c rs in
      if rule_matches digest groups f r c
      then next_rule (candidate f c rule (some r) (some (rule_result site f r)) st) rest
      else rest st

  abbrev pub after_rules : Feature → Context → Option Value × State → Decision × State
  after_rules f c (some v, st) =
      (decided v targeting_match, persist_assignment site f c (shown v) st)
  after_rules f c (none, st) = (decided (safe_default site f) default, st)

  abbrev pub after_sticky : Feature → Context → Option Value × State → Decision × State
  after_sticky f c (some v, st) = (decided v cached, st)
  after_sticky f c (none, st) = after_rules f c (eval_rules f c f.rules st)

  abbrev pub after_db : Feature → Context → Option Value × State → Decision × State
  after_db f c (some v, st) = (decided v static, st)
  after_db f c (none, st) =
      after_sticky f c (candidate f c sticky none (text_value (sticky_assignment site f c st)) st)

  abbrev pub after_request : Feature → Context → Option Value × State → Decision × State
  after_request f c (some v, st) = (decided v static, st)
  after_request f c (none, st) =
      after_db f c (candidate f c from_db none (text_value (db_override f c)) st)

  -- `_evaluate_definition`
  unfoldable pub evaluate_definition : Feature → Context → State → Decision × State
  evaluate_definition f c st =
      after_request f c (candidate f c request_override none (requested f c) st)

  abbrev pub flag_from : Option Feature → String → Context → State → Option (Value × State)
  flag_from (some f) key c st = let (d, st') = evaluate_definition f c st in some (d.value, st')
  flag_from none key c st = default_flag (registry_default site key) st

  -- One round of the loop of `evaluate_many`.
  unfoldable pub evaluate_flag : List Feature → String → Context → State → Option (Value × State)
  evaluate_flag features key c st = flag_from (active_definition features key) key c st

  -- `evaluate_many`; `none` where a registry default cannot be coerced.
  unfoldable pub evaluate_many :
      List Feature → Context → List String → Dict Value → State → Option (Dict Value × State)
  evaluate_many features c [] resolved st = some (resolved, st)
  evaluate_many features c (key ∷ keys) resolved st =
      let rest = evaluate_many features c keys in
      elim (evaluate_flag features key c st) [
        | none ↦ none
        | some (v, st') ↦ rest (insert key v resolved) st'
      ]
