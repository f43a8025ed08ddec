-- ===== src/Features/Evaluate/Origin.antt =====
-- Where the value of a decision comes from.
use mathlib.Core.List.{Memᴰ}
use jou_tak_web.Prelude.{
  ℕ, String, ◌≡◌, refl, Bool, true, Option, none, some, List, [], ◌∷◌, arith, Bool-cases,
  Option-cases, ◌⊎◌, false, ◌∙◌, ◌≢◌, inl, inr,
}
use jou_tak_web.Values.{Value}
use jou_tak_web.Registry.{Site}
use jou_tak_web.Features.Model.{Rule, Feature, Group, Context, State}
use jou_tak_web.Features.Rules.{rule_matches, db_override}
use jou_tak_web.Features.Policy.{
  Source, request_override, db_override as from_db, sticky, rule, policy_value_allowed,
  safe_default, validated_feature_value, rule_result,
}
use jou_tak_web.Features.Grants.{
  IsCoherent, policy_value_allowed-IsCoherent, policy_value_allowed-same,
}
use jou_tak_web.Features.Assignments.{sticky_assignment}
use jou_tak_web.Features.Evaluate.{
  candidate, admitted, kept, text_value, requested, next_rule, eval_rules, after_rules,
  after_sticky, after_db, after_request, evaluate_definition,
}

module _ (site : Site) (groups : List Group) (digest : String → ℕ) (f : Feature) (c : Context) where
  -- The stored value `raw` was read, is valid, and the policy let it through as `v`.
  pub record IsAdmitted (s : Source) (r : Option Rule) (raw : Option Value) (v : Value)
      : Type 0 where
    pub st : State
    pub coherent : IsCoherent groups c st
    pub stored : Value
    pub read : raw ≡ some stored
    pub valid : validated_feature_value site f stored ≡ some v
    pub allowed : (policy_value_allowed groups site f v c s r st).0 ≡ true

  pub data Origin (st : State) (v : Value) : Type 0 where
    by_request : IsAdmitted request_override none (requested f c) v → Origin st v
    by_db : IsAdmitted from_db none (text_value (db_override f c)) v → Origin st v
    by_sticky : IsAdmitted sticky none (text_value (sticky_assignment site f c st)) v → Origin st v
    by_rule :
        (r : Rule)
        → Memᴰ r f.rules
        → rule_matches digest groups f r c ≡ true
        → IsAdmitted rule (some r) (some (rule_result site f r)) v
        → Origin st v
    by_default : v ≡ safe_default site f → Origin st v

  candidate-IsAdmitted :
      (s : Source) (r : Option Rule) (raw : Option Value) (st : State) (v : Value)
      → IsCoherent groups c st
      → (candidate site groups digest f c s r raw st).0 ≡ some v
      → IsAdmitted s r raw v
  unfolding candidate
  candidate-IsAdmitted s r none st v h e = cc
  candidate-IsAdmitted s r (some raw) st v h e = record {
    st = st;
    coherent = h;
    stored = raw;
    read = refl;
    valid = ground arith;
    allowed = ground arith;
  }

  kept-state : (v : Value) (a : Bool × State) → (kept v a).1 ≡ a.1
  kept-state v (true, st) = refl
  kept-state v (false, st) = refl

  candidate-IsCoherent :
      (s : Source) (r : Option Rule) (raw : Option Value) (st : State)
      → IsCoherent groups c st
      → IsCoherent groups c (candidate site groups digest f c s r raw st).1
  unfolding candidate
  candidate-IsCoherent s r none st h = h
  candidate-IsCoherent s r (some raw) st h =
      elim (Option-cases (validated_feature_value site f raw)) [
        | inl invalid ↦ rw (invalid, admitted) h
        | inr (v, valid) ↦
            rw (valid, admitted)
              (rw (kept-state v (policy_value_allowed groups site f v c s r st))
                (policy_value_allowed-IsCoherent groups c st h site f v s r))
      ]

  candidate-same :
      (s : Source) (raw : Option Value) (st : State)
      → s ≢ rule
      → (candidate site groups digest f c s none raw st).1 ≡ st
  unfolding candidate
  candidate-same s none st n = refl
  candidate-same s (some raw) st n = elim (Option-cases (validated_feature_value site f raw)) [
    | inl invalid ↦ rw (invalid, admitted)
    | inr (v, valid) ↦
        rw (valid, admitted)
          (kept-state v (policy_value_allowed groups site f v c s none st)
            ∙ policy_value_allowed-same groups c st site f v s none n)
  ]

  next_rule-IsCoherent :
      (p : Option Value × State) (rest : State → Option Value × State)
      → IsCoherent groups c p.1
      → ((st : State) → IsCoherent groups c st → IsCoherent groups c (rest st).1)
      → IsCoherent groups c (next_rule p rest).1
  next_rule-IsCoherent (some v, st) rest h k = h
  next_rule-IsCoherent (none, st) rest h k = k st h

  eval_rules-IsCoherent :
      (rs : List Rule) (st : State)
      → IsCoherent groups c st
      → IsCoherent groups c (eval_rules site groups digest f c rs st).1
  unfolding eval_rules
  eval_rules-IsCoherent [] st h = h
  eval_rules-IsCoherent (r ∷ rs) st h = elim (Bool-cases (rule_matches digest groups f r c)) [
    | inl hit ↦ rw hit (
        next_rule-IsCoherent
          (candidate site groups digest f c rule (some r) (some (rule_result site f r)) st)
          (eval_rules site groups digest f c rs)
          (candidate-IsCoherent rule (some r) (some (rule_result site f r)) st h)
          (eval_rules-IsCoherent rs))
    | inr miss ↦ rw miss (eval_rules-IsCoherent rs st h)
  ]

  next_rule-some :
      (p : Option Value × State) (rest : State → Option Value × State) (v : Value)
      → (next_rule p rest).0 ≡ some v
      → (p.0 ≡ some v) ⊎ ((rest p.1).0 ≡ some v)
  next_rule-some (some w, st) rest v e = inl e
  next_rule-some (none, st) rest v e = inr e

  abbrev FromRule : List Rule → Value → Type 0
  FromRule rs v =
      (r : Rule) × Memᴰ r rs
      × (rule_matches digest groups f r c ≡ true)
      × IsAdmitted rule (some r) (some (rule_result site f r)) v

  FromRule-cons : (r : Rule) (rs : List Rule) (v : Value) → FromRule rs v → FromRule (r ∷ rs) v
  FromRule-cons r rs v (q, m, hit, a) = (q, Memᴰ.tail m, hit, a)

  eval_rules-FromRule :
      (rs : List Rule) (st : State) (v : Value)
      → IsCoherent groups c st
      → (eval_rules site groups digest f c rs st).0 ≡ some v
      → FromRule rs v
  unfolding eval_rules
  eval_rules-FromRule [] st v h e = cc
  eval_rules-FromRule (r ∷ rs) st v h e =
      let raw : Option Value = some (rule_result site f r) in
      elim (Bool-cases (rule_matches digest groups f r c)) [
        | inl hit ↦
            elim (next_rule-some (candidate site groups digest f c rule (some r) raw st) _ v
              (rw hit at e)) [
                | inl here ↦
                    (r, Memᴰ.head refl, hit, candidate-IsAdmitted rule (some r) raw st v h here)
                | inr later ↦
                    FromRule-cons r rs v (
                      eval_rules-FromRule rs _ v (candidate-IsCoherent rule (some r) raw st h)
                        later)
              ]
        | inr miss ↦ FromRule-cons r rs v (eval_rules-FromRule rs st v h (rw miss at e))
      ]

  -- The decision's four stages, from the last to the first.
  after_rules-Origin :
      (st : State) (p : Option Value × State)
      → ((v : Value) → p.0 ≡ some v → FromRule f.rules v)
      → Origin st (after_rules site groups digest f c p).0.value
  after_rules-Origin st (some v, s) k = let (r, m, hit, a) = k v refl in by_rule r m hit a
  after_rules-Origin st (none, s) k = by_default refl

  after_sticky-Origin :
      (st : State) (p : Option Value × State)
      → IsCoherent groups c p.1
      → ((v : Value)
          → p.0 ≡ some v
          → IsAdmitted sticky none (text_value (sticky_assignment site f c st)) v)
      → Origin st (after_sticky site groups digest f c p).0.value
  after_sticky-Origin st (some v, s) h k = by_sticky (k v refl)
  after_sticky-Origin st (none, s) h k =
      after_rules-Origin st (eval_rules site groups digest f c f.rules s)
        (λ v e. eval_rules-FromRule f.rules s v h e)

  after_db-Origin :
      (st : State) (p : Option Value × State)
      → IsCoherent groups c st
      → p.1 ≡ st
      → ((v : Value) → p.0 ≡ some v → IsAdmitted from_db none (text_value (db_override f c)) v)
      → Origin st (after_db site groups digest f c p).0.value
  after_db-Origin st (some v, s) h e k = by_db (k v refl)
  after_db-Origin st (none, s) h e k = rw e (
      let raw = text_value (sticky_assignment site f c st) in
      after_sticky-Origin st (candidate site groups digest f c sticky none raw st)
        (candidate-IsCoherent sticky none raw st h)
        (λ v x. candidate-IsAdmitted sticky none raw st v h x))

  after_request-Origin :
      (st : State) (p : Option Value × State)
      → IsCoherent groups c st
      → p.1 ≡ st
      → ((v : Value) → p.0 ≡ some v → IsAdmitted request_override none (requested f c) v)
      → Origin st (after_request site groups digest f c p).0.value
  after_request-Origin st (some v, s) h e k = by_request (k v refl)
  after_request-Origin st (none, s) h e k = rw e (
      let raw = text_value (db_override f c) in
      after_db-Origin st (candidate site groups digest f c from_db none raw st) h
        (candidate-same from_db raw st (λ x. cc))
        (λ v x. candidate-IsAdmitted from_db none raw st v h x))

  -- The value of a decision is one of the stored candidates, validated and let through by the policy
  -- for its source, or the safe default. The context's cache of groups is coherent at the start.
  pub evaluate_definition-Origin :
      (st : State)
      → IsCoherent groups c st
      → Origin st (evaluate_definition site groups digest f c st).0.value
  unfolding evaluate_definition
  evaluate_definition-Origin st h =
      after_request-Origin st
        (candidate site groups digest f c request_override none (requested f c) st) h
        (candidate-same request_override (requested f c) st (λ x. cc))
        (λ v x. candidate-IsAdmitted request_override none (requested f c) st v h x)
