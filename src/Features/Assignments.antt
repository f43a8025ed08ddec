-- ===== src/Features/Assignments.antt =====
-- backend/featureflags/services.py: sticky assignments, read and written.
pub mod Laws
use jou_tak_web.Prelude.{
  String, Bool, true, ◌&&◌, Option, none, some, List, [], ◌∷◌, ◌==◌, find, if◌then◌else◌,
}
use jou_tak_web.Registry.{Site, RolloutPolicy, get_rollout_policy}
use jou_tak_web.Features.Model.{Feature, Assignment, Context, State, assignment_subject}

-- The columns of the unique key, in a row and in a request for it.
abbrev pub is_assignment : String → String × String → String → Assignment → Bool
is_assignment key subject page a =
    a.feature_key == key
    && a.subject_type == subject.0
    && a.subject_key == subject.1
    && a.page == page

-- `update_or_create`: the first row with the key gets the value, or a row is added.
unfoldable pub update_or_create :
    String → String × String → String → String → List Assignment → List Assignment
update_or_create key subject page value [] =
    record {
      feature_key = key;
      subject_type = subject.0;
      subject_key = subject.1;
      page = page;
      value = value;
    }
    ∷ []
update_or_create key subject page value (a ∷ rest) =
    if is_assignment key subject page a
    then record a { value = value } ∷ rest
    else a ∷ update_or_create key subject page value rest

abbrev sticky_policy : Option RolloutPolicy → Bool
sticky_policy none = true
sticky_policy (some policy) = policy.allow_sticky

-- `feature.sticky_assignment and allow_sticky`, with the subject.
unfoldable pub sticky_subject : Site → Feature → Context → Option (String × String)
sticky_subject site f c =
    if f.sticky_assignment && sticky_policy (get_rollout_policy site f.key)
    then assignment_subject c
    else none

abbrev pub stored_value : Option Assignment → Option String
stored_value none = none
stored_value (some a) = some a.value

abbrev read_for : Option (String × String) → String → String → List Assignment → Option String
read_for none key page rows = none
read_for (some subject) key page rows = stored_value (find (is_assignment key subject page) rows)

-- `_sticky_assignment`
unfoldable pub sticky_assignment : Site → Feature → Context → State → Option String
sticky_assignment site f c st = read_for (sticky_subject site f c) f.key c.page st.assignments

abbrev write_for : Option (String × String) → String → String → String → State → State
write_for none key page value st = st
write_for (some subject) key page value st = record st {
  assignments = update_or_create key subject page value st.assignments;
}

-- `_persist_assignment`
unfoldable pub persist_assignment : Site → Feature → Context → String → State → State
persist_assignment site f c value st = write_for (sticky_subject site f c) f.key c.page value st
