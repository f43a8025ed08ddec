-- ===== src/Features/Assignments/Laws.antt =====
-- Sticky assignments: what is written is read back, nothing else changes, and no key has two rows.
use jou_tak_web.Prelude.{
  String, ◌≡◌, refl, ◌∙◌, true, false, ◌&&◌, ◌||◌, Bool, some, List, [], ◌∷◌, arith, find, any,
  Bool-cases, inl, inr, eq_iff, ◌==◌,
}
use jou_tak_web.Registry.{Site}
use jou_tak_web.Features.Model.{Feature, Assignment, Context, State}
use jou_tak_web.Features.Assignments.{
  is_assignment, update_or_create, stored_value, sticky_subject, sticky_assignment,
  persist_assignment,
}

module _ (key : String) (subject : String × String) (page value : String) where
  find-update_or_create_self :
      (rows : List Assignment)
      → stored_value
          (find (is_assignment key subject page) (update_or_create key subject page value rows))
        ≡ some value
  unfolding update_or_create
  find-update_or_create_self [] = ground (
    arith,
    eq_iff key key,
    eq_iff subject.0 subject.0,
    eq_iff subject.1 subject.1,
    eq_iff page page,
  )
  find-update_or_create_self (a ∷ rows) = ground (arith, find-update_or_create_self rows)

-- The columns of a unique key.
abbrev pub same_key : String → String × String → String → String → String × String → String → Bool
same_key key subject page key' subject' page' =
    key == key' && subject.0 == subject'.0 && subject.1 == subject'.1 && page == page'

or_absorb : (a b : Bool) → (a || b) ≡ (a || (a || b))
or_absorb a b = ground arith

or_swap : (a b c : Bool) → (a || (b || c)) ≡ (b || (a || c))
or_swap a b c = ground arith

-- A row that has one key has another only if the keys agree.
is_assignment-two :
    (key : String) (subject : String × String) (page : String) (key' : String)
    (subject' : String × String) (page' : String) (a : Assignment)
    → is_assignment key subject page a ≡ true
    → is_assignment key' subject' page' a ≡ same_key key subject page key' subject' page'
is_assignment-two key subject page key' subject' page' a h = ground (
  arith,
  eq_iff a.feature_key key,
  eq_iff a.subject_type subject.0,
  eq_iff a.subject_key subject.1,
  eq_iff a.page page,
)

module _ (key : String) (subject : String × String) (page value key' : String)
    (subject' : String × String) (page' : String) where
  -- A row with another key is found as before.
  find-update_or_create_other :
      (rows : List Assignment)
      → same_key key subject page key' subject' page' ≡ false
      → find (is_assignment key' subject' page') (update_or_create key subject page value rows)
        ≡ find (is_assignment key' subject' page') rows
  unfolding update_or_create
  find-update_or_create_other [] ne = rw ne
  find-update_or_create_other (a ∷ rows) ne = ground (
    arith,
    is_assignment-two key subject page key' subject' page' a,
    find-update_or_create_other rows ne,
  )

  any-update_or_create :
      (rows : List Assignment)
      → any (is_assignment key' subject' page') (update_or_create key subject page value rows) ≡ (
          same_key key subject page key' subject' page'
          || any (is_assignment key' subject' page') rows)
  unfolding update_or_create
  any-update_or_create [] = refl
  any-update_or_create (a ∷ rows) = elim (Bool-cases (is_assignment key subject page a)) [
    | inl old ↦
        rw (old, is_assignment-two key subject page key' subject' page' a old)
          (or_absorb (same_key key subject page key' subject' page')
            (any (is_assignment key' subject' page') rows))
    | inr new ↦
        rw (new, any-update_or_create rows)
          (or_swap (is_assignment key' subject' page' a)
            (same_key key subject page key' subject' page')
            (any (is_assignment key' subject' page') rows))
  ]

-- At most one row for each key, as the table's unique constraint demands.
abbrev pub IsUnique : List Assignment → Type 0
IsUnique [] = Unit
IsUnique (a ∷ rows) =
    (any (is_assignment a.feature_key (a.subject_type, a.subject_key) a.page) rows ≡ false)
    × IsUnique rows

same_key-is_assignment :
    (key : String) (subject : String × String) (page : String) (a : Assignment)
    → same_key key subject page a.feature_key (a.subject_type, a.subject_key) a.page
      ≡ is_assignment key subject page a
same_key-is_assignment key subject page a = ground (
  arith,
  eq_iff a.feature_key key,
  eq_iff a.subject_type subject.0,
  eq_iff a.subject_key subject.1,
  eq_iff a.page page,
  eq_iff key a.feature_key,
  eq_iff subject.0 a.subject_type,
  eq_iff subject.1 a.subject_key,
  eq_iff page a.page,
)

or_false : (a b : Bool) → a ≡ false → b ≡ false → (a || b) ≡ false
or_false a b p q = ground arith

update_or_create-IsUnique :
    (key : String) (subject : String × String) (page value : String) (rows : List Assignment)
    → IsUnique rows
    → IsUnique (update_or_create key subject page value rows)
unfolding update_or_create
update_or_create-IsUnique key subject page value [] h = (refl, tt)
update_or_create-IsUnique key subject page value (a ∷ rows) h =
    elim (Bool-cases (is_assignment key subject page a)) [
      | inl old ↦ rw old h
      | inr new ↦ rw new (
        rw
            (any-update_or_create key subject page value a.feature_key
              (a.subject_type, a.subject_key) a.page rows)
            (or_false _ _ (same_key-is_assignment key subject page a ∙ new) h.0),
        update_or_create-IsUnique key subject page value rows h.1,
      )
    ]

-- A sticky feature reads back the value that it persisted for the same actor and page; the table keeps
-- one row for each key, and every other key finds the row that it found before.
pub persist_assignment_lem :
    (site : Site) (f : Feature) (c : Context) (subject : String × String) (value : String)
    (st : State) (key' : String) (subject' : String × String) (page' : String)
    → sticky_subject site f c ≡ some subject
    → IsUnique st.assignments
    → same_key f.key subject c.page key' subject' page' ≡ false
    → (sticky_assignment site f c (persist_assignment site f c value st) ≡ some value)
      × IsUnique (persist_assignment site f c value st).assignments
      × (find (is_assignment key' subject' page') (persist_assignment site f c value st).assignments
          ≡ find (is_assignment key' subject' page') st.assignments)
unfolding sticky_assignment persist_assignment
persist_assignment_lem site f c subject value st key' subject' page' e h ne = (
  rw e (find-update_or_create_self f.key subject c.page value st.assignments),
  rw e (update_or_create-IsUnique f.key subject c.page value st.assignments h),
  rw e (
      find-update_or_create_other f.key subject c.page value key' subject' page' st.assignments ne),
)
