-- ===== src/Rollouts/Disjoint.antt =====
-- The invariant of the table of rollouts: two that are enabled for one flag have no page in common.

use jou_tak_web.Prelude.{
  String, ◌≡◌, refl, sym, subst, Bool, true, false, ◌&&◌, ◌||◌, not, none, some, List, [], ◌∷◌,
  ◌==◌, any, find, nat_eq, is_some, arith, eq_iff, All, All-map, if-cases,
}
use jou_tak_web.Rollouts.Model.{RolloutRule, overlaps, has_pk, save, switched, active_conflict}

-- Both rules are enabled for one flag, with a page in common.
abbrev pub clashes : RolloutRule → RolloutRule → Bool
clashes r s =
    s.feature == r.feature && s.rule.enabled && overlaps r.rule.page s.rule.page && r.rule.enabled

abbrev pub IsApart : RolloutRule → RolloutRule → Type 0
IsApart r s = (nat_eq s.rule.pk r.rule.pk ≡ false) × (clashes r s ≡ false)

-- The rows have keys of their own, and no two of them clash.
abbrev pub IsDisjoint : List RolloutRule → Type 0
IsDisjoint [] = Unit
IsDisjoint (r ∷ rows) = All (IsApart r) rows × IsDisjoint rows

same_text_comm : (a b : String) → (a == b) ≡ (b == a)
same_text_comm a b = ground (arith, eq_iff a b, eq_iff b a)

overlaps_comm : (p q : String) → overlaps p q ≡ overlaps q p
overlaps_comm String.[] String.[] = refl
overlaps_comm String.[] (String.◌∷◌ c q) = refl
overlaps_comm (String.◌∷◌ c p) String.[] = refl
overlaps_comm (String.◌∷◌ c p) (String.◌∷◌ d q) = same_text_comm (String.◌∷◌ d q) (String.◌∷◌ c p)

IsApart-comm : (r s : RolloutRule) → IsApart r s → IsApart s r
IsApart-comm r s apart = (
  ground (arith, apart.0),
  ground
      (arith, apart.1, same_text_comm r.feature s.feature, overlaps_comm r.rule.page s.rule.page),
)

find_none :
    (p : RolloutRule → Bool) (rows : List RolloutRule)
    → is_some (find p rows) ≡ false
    → All (λ r. p r ≡ false) rows
find_none p [] h = tt
find_none p (r ∷ rows) h = (ground arith, find_none p rows (ground arith))

save-absent :
    (new : RolloutRule) (rows : List RolloutRule)
    → All (λ s. nat_eq s.rule.pk new.rule.pk ≡ false) rows
    → save new rows ≡ rows
unfolding save
save-absent new [] absent = refl
save-absent new (row ∷ rows) absent = ground (arith, absent.0, save-absent new rows absent.1)

pub All-save :
    (P : RolloutRule → Type 0) (new : RolloutRule) (rows : List RolloutRule)
    → All P rows
    → P new
    → All P (save new rows)
unfolding save
All-save P new [] all here = tt
All-save P new (row ∷ rows) all here =
    let rest = All-save P new rows all.1 here in
    if-cases (All P) (has_pk new.rule.pk row) (new ∷ save new rows) (row ∷ save new rows)
      (λ same. (here, rest)) (λ differ. (all.0, rest))

All-IsApart :
    (new : RolloutRule) (rows : List RolloutRule)
    → All (λ s. nat_eq s.rule.pk new.rule.pk ≡ false) rows
    → All (λ s. nat_eq s.rule.pk new.rule.pk ≡ false → clashes new s ≡ false) rows
    → All (IsApart new) rows
All-IsApart new [] absent free = tt
All-IsApart new (row ∷ rows) absent free =
    ((absent.0, free.0 absent.0), All-IsApart new rows absent.1 free.1)

-- A row that clashes with no other row may be saved.
pub IsDisjoint-save :
    (new : RolloutRule) (rows : List RolloutRule)
    → All (λ s. nat_eq s.rule.pk new.rule.pk ≡ false → clashes new s ≡ false) rows
    → IsDisjoint rows
    → IsDisjoint (save new rows)
unfolding save
IsDisjoint-save new [] apart disjoint = tt
IsDisjoint-save new (row ∷ rows) apart disjoint =
    let rest = IsDisjoint-save new rows apart.1 disjoint.1 in
    if-cases IsDisjoint (has_pk new.rule.pk row) (new ∷ save new rows) (row ∷ save new rows)
      (λ same.
        let absent =
          All-map (IsApart row) (λ s. nat_eq s.rule.pk new.rule.pk ≡ false) rows
            (λ s apart_row. ground (arith, same, apart_row.0)) disjoint.0 in
        (
          subst (All (IsApart new)) (sym (save-absent new rows absent))
              (All-IsApart new rows absent apart.1),
          rest,
        ))
      (λ differ. (
        All-save (IsApart row) new rows disjoint.0 (IsApart-comm new row (differ, apart.0 differ)),
        rest,
      ))

-- What `_active_conflict` has not found, for a new row and for one that is left out of the search.
pub no_clash-create :
    (new : RolloutRule) (rows : List RolloutRule)
    → any (has_pk new.rule.pk) rows ≡ false
    → (not new.rule.enabled || not (is_some (active_conflict new.feature new.rule.page none rows)))
      ≡ true
    → All (IsApart new) rows
unfolding active_conflict
no_clash-create new [] fresh free = tt
no_clash-create new (row ∷ rows) fresh free = (
  (ground (arith, fresh), ground (arith, free)),
  no_clash-create new rows (ground (arith, fresh)) (ground (arith, free)),
)

pub no_clash-start :
    (r : RolloutRule) (rows : List RolloutRule)
    → is_some (active_conflict r.feature r.rule.page (some r.rule.pk) rows) ≡ false
    → All (λ s. nat_eq s.rule.pk r.rule.pk ≡ false → clashes (switched true r) s ≡ false) rows
unfolding active_conflict
no_clash-start r [] free = tt
no_clash-start r (row ∷ rows) free =
    ((λ differ. ground (arith, free, differ)), no_clash-start r rows (ground (arith, free)))
