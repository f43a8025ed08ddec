-- ===== src/Features/Evaluate/Values.antt =====
-- The values of the flags that one request evaluates together.
use jou_tak_web.Prelude.{
  ℕ, String, ◌≡◌, inl, inr, Option, none, some, List, [], ◌∷◌, arith, member, Bool-cases,
  Option-cases, eq_iff, ◌==◌, if◌then◌else◌, sym,
}
use jou_tak_web.Prelude.Assoc.{Dict, lookup, insert, lookup-insert}
use jou_tak_web.Values.{Value}
use jou_tak_web.Registry.{Site}
use jou_tak_web.Features.Model.{Feature, Group, Context, State}
use jou_tak_web.Features.Evaluate.{
  value_or_false, active_definition, registry_default, evaluate_flag, evaluate_many,
}

module _ (site : Site) (groups : List Group) (digest : String → ℕ) where
  evaluate_flag-default :
      (features : List Feature) (key : String) (c : Context) (st : State) (o : Option Value)
      → active_definition features key ≡ none
      → registry_default site key ≡ some o
      → evaluate_flag site groups digest features key c st ≡ some (value_or_false o, st)
  unfolding evaluate_flag
  evaluate_flag-default features key c st o a r = ground arith

  -- A flag with no active definition has its registered default, and `False` if it is not registered;
  -- whatever else is evaluated with it, and only if it is asked for.
  pub evaluate_many-default :
      (features : List Feature) (c : Context) (keys : List String) (resolved : Dict Value)
      (st : State) (k : String) (o : Option Value) (out : Dict Value) (st' : State)
      → active_definition features k ≡ none
      → registry_default site k ≡ some o
      → evaluate_many site groups digest features c keys resolved st ≡ some (out, st')
      → lookup k out ≡ (if member k keys then some (value_or_false o) else lookup k resolved)
  unfolding evaluate_many
  evaluate_many-default features c [] resolved st k o out st' a r e = ground arith
  evaluate_many-default features c (key ∷ keys) resolved st k o out st' a r e =
      elim (Option-cases (evaluate_flag site groups digest features key c st)) [
        | inl raised ↦ cc
        | inr ((v, s), found) ↦
            let ih =
              evaluate_many-default features c keys (insert key v resolved) s k o out st' a r
                (rw (found, evaluate_many) at e) in
            let stored = lookup-insert key k v resolved in
            elim (Bool-cases (key == k)) [
              | inl same ↦
                  let alike = (eq_iff key k).0 same in
                  let given =
                    evaluate_flag-default features key c st o (rw (sym alike) at a)
                      (rw (sym alike) at r) in
                  ground (arith, ih, stored, eq_iff k key, alike, given)
              | inr other ↦ ground (arith, ih, stored, eq_iff k key, eq_iff key k)
            ]
      ]
