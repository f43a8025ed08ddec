-- ===== src/Features/Model.antt =====
-- backend/featureflags/models.py and the contexts of services.py: the rows that an evaluation reads and
-- the actor that it is made for. A `TextChoices` column is a data type whose last constructor stands for
-- any other text in the column. Columns that no evaluation reads (names, notes, times) are left out.
use jou_tak_web.Prelude.{
  ℕ, String, Bool, false, ◌&&◌, ◌||◌, Option, none, some, List, is_some, if◌then◌else◌,
}
use jou_tak_web.Prelude.Assoc.{Dict}
use jou_tak_web.Prelude.Text.{decimal}
use jou_tak_web.Values.{Value, non_empty}
use Prim.Native.String.{◌++◌}

pub data RuleType : Type 0 where
  everyone authenticated staff group : RuleType
  user_allowlist user_denylist anonymous_allowlist anonymous_denylist percentage : RuleType
  unknown : String → RuleType

-- `str(rule.rule_type)`
abbrev pub audience : RuleType → String
audience RuleType.everyone = "everyone"
audience RuleType.authenticated = "authenticated"
audience RuleType.staff = "staff"
audience RuleType.group = "group"
audience RuleType.user_allowlist = "user_allowlist"
audience RuleType.user_denylist = "user_denylist"
audience RuleType.anonymous_allowlist = "anonymous_allowlist"
audience RuleType.anonymous_denylist = "anonymous_denylist"
audience RuleType.percentage = "percentage"
audience (RuleType.unknown s) = s

pub data OverrideScope : Type 0 where
  global user anonymous : OverrideScope
  unknown : String → OverrideScope

-- The JSON fields `actor_ids` and `group_ids` hold lists of scalars.
pub record Rule : Type 0 where
  pub pk : ℕ
  pub rule_type : RuleType
  pub value : String
  pub page : String
  pub actor_ids : List Value
  pub group_ids : List Value
  pub percentage : Option ℕ
  pub enabled : Bool

pub record Override : Type 0 where
  pub scope_type : OverrideScope
  pub scope_value : String
  pub value : String
  pub enabled : Bool

-- `rules` and `overrides` are the related rows in the order of their models' `Meta.ordering`.
pub record Feature : Type 0 where
  pub key : String
  pub kind : String
  pub default_value : String
  pub active : Bool
  pub sticky_assignment : Bool
  pub rules : List Rule
  pub overrides : List Override

pub record Assignment : Type 0 where
  pub feature_key : String
  pub subject_type : String
  pub subject_key : String
  pub page : String
  pub value : String

pub record Group : Type 0 where
  pub pk : ℕ
  pub slug : String
  pub members : List ℕ

-- What an evaluation writes: the assignments, and the context's cache of required groups.
pub record State : Type 0 where
  pub assignments : List Assignment
  pub required_group_ids : Dict (Option ℕ)

pub record User : Type 0 where
  pub pk : ℕ
  pub is_staff : Bool
  pub is_authenticated : Bool

-- `RequestEvaluationContext`, less its `request`, which no evaluation reads.
pub record Context : Type 0 where
  pub user : Option User
  pub anonymous_id : Option String
  pub page : String
  pub request_overrides : Option (Dict String)

unfoldable pub user_id : Context → Option ℕ
user_id c = elim c.user [ none ↦ none | some u ↦ if u.is_authenticated then some u.pk else none ]

unfoldable pub is_staff : Context → Bool
is_staff c = elim c.user [ none ↦ false | some u ↦ u.is_authenticated && u.is_staff ]

-- `bool(self.anonymous_id)`
abbrev pub present : Option String → Bool
present none = false
present (some s) = non_empty s

unfoldable pub has_identity : Context → Bool
unfolding user_id
has_identity c = is_some (user_id c) || present c.anonymous_id

abbrev pub anonymous_key : Option String → String
anonymous_key none = ""
anonymous_key (some a) = if non_empty a then "anon:" ++ a else ""

unfoldable pub identity_key : Context → String
unfolding user_id
identity_key c = elim (user_id c) [
  | some pk ↦ "user:" ++ decimal pk
  | none ↦ anonymous_key c.anonymous_id
]

-- `_assignment_subject`
unfoldable pub assignment_subject : Context → Option (String × String)
unfolding user_id
assignment_subject c = elim (user_id c) [
  | some pk ↦ some ("user", decimal pk)
  | none ↦ elim c.anonymous_id [
    | none ↦ none
    | some a ↦ if non_empty a then some ("anonymous", a) else none
  ]
]
