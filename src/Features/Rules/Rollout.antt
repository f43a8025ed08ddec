-- ===== src/Features/Rules/Rollout.antt =====
-- Percentage rollouts and database overrides.
use mathlib.Core.List.{Memᴰ}
use jou_tak_web.Prelude.{
  ℕ, ◌≤◌, String, ◌≡◌, true, false, none, some, List, [], ◌∷◌, arith, All, eq_iff, subst,
}
use jou_tak_web.Prelude.Text.{decimal}
use jou_tak_web.Features.Model.{
  RuleType, OverrideScope, Rule, Override, Feature, Group, Context, user_id, has_identity,
}
use jou_tak_web.Features.Rules.{rule_matches, Matches, collect, db_override}

module _ (digest : String → ℕ) (groups : List Group) (f : Feature) (r : Rule) (c : Context) where
  -- Raising the percentage of a rollout rule drops nobody: whoever matched it still matches.
  pub rule_matches_mono :
      (n m : ℕ)
      → n ≤ m
      → r.rule_type ≡ RuleType.percentage
      → rule_matches digest groups f (record r { percentage = some n }) c ≡ true
      → rule_matches digest groups f (record r { percentage = some m }) c ≡ true
  unfolding rule_matches
  rule_matches_mono n m le t h = ground arith

  -- An enabled rollout rule for every page: at 100 percent or more it matches exactly the actors with
  -- an identity; at 0 percent, or with no percentage, it matches nobody.
  pub rule_matches-ends :
      (n : ℕ)
      → 100 ≤ n
      → r.enabled ≡ true
      → r.page ≡ ""
      → r.rule_type ≡ RuleType.percentage
      → (rule_matches digest groups f (record r { percentage = some n }) c ≡ has_identity c)
        × (rule_matches digest groups f (record r { percentage = some 0 }) c ≡ false)
        × (rule_matches digest groups f (record r { percentage = none }) c ≡ false)
  unfolding rule_matches
  rule_matches-ends n big on page t = (
    rw (on, page, t) (ground arith),
    rw (on, page, t) (ground arith),
    rw (on, page, t) (ground arith),
  )

-- A row that is a user's own: an enabled override in the user scope, of the user's key.
abbrev pub IsOwn : ℕ → Override → Type 0
IsOwn uid o =
    (o.enabled ≡ true) × (o.scope_type ≡ OverrideScope.user) × (o.scope_value ≡ decimal uid)

collect-user_keeps :
    (c : Context) (uid : ℕ) (v : String) (os : List Override) (m : Matches)
    → user_id c ≡ some uid
    → All (λ o. IsOwn uid o → o.value ≡ v) os
    → m.user ≡ some v
    → (collect c os m).user ≡ some v
unfolding collect
collect-user_keeps c uid v [] m u h e = e
collect-user_keeps c uid v (o ∷ os) m u h e =
    collect-user_keeps c uid v os _ u h.1 (ground (arith, eq_iff o.scope_value (decimal uid), h.0))

collect-user_found :
    (c : Context) (uid : ℕ) (v : String) (o : Override) (os : List Override) (m : Matches)
    → user_id c ≡ some uid
    → Memᴰ o os
    → IsOwn uid o
    → All (λ o. IsOwn uid o → o.value ≡ v) os
    → (collect c os m).user ≡ some v
unfolding collect
collect-user_found c uid v o [] m u mem own h = elim mem [ ]
collect-user_found c uid v o (p ∷ os) m u (Memᴰ.head e) own h =
    let mine = subst (IsOwn uid) e own in
    collect-user_keeps c uid v os _ u h.1
      (ground (arith, mine.0, mine.1, mine.2, h.0 mine, eq_iff p.scope_value (decimal uid)))
collect-user_found c uid v o (p ∷ os) m u (Memᴰ.tail t) own h =
    collect-user_found c uid v o os _ u t own h.1

-- An enabled override in the user's own scope decides for that user, whatever the global override
-- says; the rows of one user's scope agree on the value, as the table's unique key makes them.
pub db_override-own :
    (f : Feature) (c : Context) (uid : ℕ) (v : String) (o : Override)
    → user_id c ≡ some uid
    → Memᴰ o f.overrides
    → IsOwn uid o
    → All (λ o. IsOwn uid o → o.value ≡ v) f.overrides
    → db_override f c ≡ some v
unfolding db_override
db_override-own f c uid v o u mem own h = rw (
    collect-user_found c uid v o f.overrides
      (record { global = none; user = none; anonymous = none }) u mem own h)
