-- ===== src/Rollouts/Model.antt =====
-- backend/featureflags/admin_services.py and the choices of forms.py: the rows of rollouts, and the checks that
-- creating and starting one share. A table is a list of rows; `HistoricalRecords` adds an entry at each save.

use Prim.Native.String.{count}
use jou_tak_web.Prelude.{
  ◌≡◌, refl, arith, ℕ, String, Bool, true, false, ◌&&◌, ◌||◌, not, Option, none, some, List, [],
  ◌∷◌, ◌++◌, map, ◌==◌, member, any, find, nat_eq, leb, is_some, if◌then◌else◌,
}
use jou_tak_web.Prelude.Assoc.{lookup}
use jou_tak_web.Prelude.Text.{strip, is_empty}
use jou_tak_web.Values.{str, non_empty}
use jou_tak_web.Registry.{Site, get_variant_choices, get_rollout_policy, is_valid_override_value}
use jou_tak_web.Features.Model.{Rule}

-- `FeatureRule` with the columns that no evaluation reads; `history` has the `enabled` of its saves, in order.
pub record RolloutRule : Type 0 where
  pub feature : String
  pub name : String
  pub priority : ℕ
  pub rule : Rule
  pub history : List Bool

pub record Definition : Type 0 where
  pub key : String
  pub active : Bool

pub data RolloutError : Type 0 where
  does_not_exist feature_unavailable unknown_audience audience_not_allowed permission_missing :
      RolloutError
  value_not_allowed page_not_allowed group_required no_groups no_users no_percentage : RolloutError
  active_conflict_found reason_too_short not_clean already_stopped already_started not_a_draft :
      RolloutError
  group_ids_corrupt : RolloutError

pub data Outcome {ℓ} (A : Type ℓ) : Type ℓ where
  done : A → Outcome A
  refused : RolloutError → Outcome A

infixl 5 ◌>>=◌ ◌>>◌
abbrev pub ◌>>=◌ {ℓ κ} : {A : Type ℓ} {B : Type κ} → Outcome A → (A → Outcome B) → Outcome B
done a >>= k = k a
refused e >>= k = refused e

abbrev pub ◌>>◌ {ℓ} : {B : Type ℓ} → Outcome (Unit {0}) → Outcome B → Outcome B
m >> k = m >>= λ _. k

-- `if not b: raise ValidationError(...)`
abbrev pub check : Bool → RolloutError → Outcome (Unit {0})
check true e = done tt
check false e = refused e

abbrev pub or_else : RolloutError → {A : Type 0} → Option A → Outcome A
or_else e none = refused e
or_else e (some a) = done a

pub done-injective {ℓ} : {A : Type ℓ} (a b : A) → Outcome.done a ≡ done b → a ≡ b
done-injective a b h = grind arith

-- What was bound before a result was bound too.
pub bind-done {ℓ κ} :
    {A : Type ℓ} {B : Type κ} (m : Outcome A) (k : A → Outcome B) (b : B)
    → (m >>= k) ≡ done b
    → (a : A) × (m ≡ done a) × (k a ≡ done b)
bind-done (done a) k b h = (a, refl, h)
bind-done (refused e) k b h = cc

pub check-passed {κ} :
    {B : Type κ} (test : Bool) (e : RolloutError) (k : Outcome B) (b : B)
    → (check test e >> k) ≡ done b
    → (test ≡ true) × (k ≡ done b)
check-passed true e k b h = (refl, h)
check-passed false e k b h = cc

pub or_else-done :
    (e : RolloutError) {A : Type 0} (o : Option A) (a : A) → or_else e o ≡ done a → o ≡ some a
or_else-done e none a h = cc
or_else-done e (some b) a h = grind arith

-- An account with its permissions.
pub record Actor : Type 0 where
  pub has_perm : String → Bool

-- Django's checks of the fields' own validators, in `full_clean`.
pub record Fields : Type 0 where
  pub clean_fields : RolloutRule → Bool

-- `is_never_started_draft`
unfoldable pub is_never_started_draft : RolloutRule → Bool
is_never_started_draft r = elim r.history [
  | [] ↦ false
  | (created ∷ later) ↦ not (any (λ b. b) (created ∷ later))
]

-- The pages of two rules have a page in common.
abbrev pub overlaps : String → String → Bool
overlaps page other = if non_empty page then is_empty other || other == page else true

abbrev pub is_other : Option ℕ → ℕ → Bool
is_other none pk = true
is_other (some excluded) pk = not (nat_eq pk excluded)

-- A row that `_active_conflict` finds.
abbrev pub is_conflict : String → String → Option ℕ → RolloutRule → Bool
is_conflict feature page exclude r =
    r.feature == feature
    && r.rule.enabled
    && overlaps page r.rule.page
    && is_other exclude r.rule.pk

-- `_active_conflict`
unfoldable pub active_conflict : String → String → Option ℕ → List RolloutRule → Option RolloutRule
active_conflict feature page exclude rows = find (is_conflict feature page exclude) rows

abbrev pub has_pk : ℕ → RolloutRule → Bool
has_pk pk r = nat_eq r.rule.pk pk

-- `rule.save()` of a row that the table has.
unfoldable pub save : RolloutRule → List RolloutRule → List RolloutRule
save r [] = []
save r (row ∷ rows) =
    let rest = save r rows in if has_pk r.rule.pk row then r ∷ rest else row ∷ rest

-- The row with `enabled` changed, as it is after its save.
abbrev pub switched : Bool → RolloutRule → RolloutRule
switched b r = record r { rule = record r.rule { enabled = b }; history = r.history ++ (b ∷ []) }

abbrev insert_page : String → List String → List String
insert_page page pages = if member page pages then pages else page ∷ pages

-- The stored pages of the registry's; their order does not matter to a test for membership.
abbrev stored_pages : List String → List String
stored_pages [] = []
stored_pages (page ∷ pages) = insert_page (if page == "*" then "" else page) (stored_pages pages)

abbrev pub definition_of : String → List Definition → Option Definition
definition_of key rows = find (λ (d : Definition). d.key == key) rows

-- `reason.strip()` is long enough.
abbrev pub is_reason : String → Bool
is_reason reason = leb 5 (count (strip reason))

abbrev within : ℕ → Option ℕ → Bool
within limit none = true
within limit (some p) = leb p limit

module _ (site : Site) where
  -- The tokens of `page_choices` and `value_choices`.
  unfoldable pub page_choices : String → List String
  page_choices key = elim (lookup key site.registry) [
    | none ↦ []
    | some spec ↦ stored_pages spec.pages
  ]

  unfoldable pub value_choices : String → List String
  value_choices key = map (λ c. c.0) (get_variant_choices site key)

  -- `FeatureRule.clean`
  unfoldable pub clean_rule : RolloutRule → Bool
  clean_rule r =
      is_valid_override_value site r.feature (str r.rule.value) && within 100 r.rule.percentage

  -- `rule.full_clean()`
  abbrev pub full_clean : Fields → RolloutRule → Bool
  full_clean fields r = fields.clean_fields r && clean_rule r

  -- The feature's row, if it is active and in the registry.
  abbrev pub is_available : Definition → Bool
  is_available d = d.active && is_some (lookup d.key site.registry)

  abbrev pub required_slug : String → String
  required_slug key = elim (get_rollout_policy site key) [
    | none ↦ ""
    | some policy ↦ (elim policy.required_group_slug [ none ↦ "" | some slug ↦ slug ])
  ]
