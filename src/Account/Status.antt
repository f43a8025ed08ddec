-- ===== src/Account/Status.antt =====
-- backend/accounts/services/account_status.py: the status of an account, and the gate in front of actions
-- that need a personalized profile.
pub mod Snapshot
use jou_tak_web.Prelude.{
  ℕ, String, ◌≡◌, ◌⊎◌, inl, inr, refl, Bool, true, false, ◌&&◌, not, Option, none, some, List, [],
  ◌∷◌, arith, ◌==◌, find, keep_if, is_some, member, nat_eq, if◌then◌else◌, Option-cases,
}
use jou_tak_web.Prelude.Assoc.{Dict, lookup, insert}
use jou_tak_web.Values.{Value, bool, normalized}
use jou_tak_web.Registry.{Site}
use jou_tak_web.Registry.Catalogue.{personalization_flag_keys}
use jou_tak_web.Features.Model.{Feature, Group, State, User, Context}
use jou_tak_web.Features.Evaluate.{evaluate_many}
use jou_tak_web.Account.Profile.{Profile, personalization_complete}
use jou_tak_web.Account.Update.{profile_or_fresh}

-- `EmailAddress` of allauth.
pub record EmailAddress : Type 0 where
  pub user : ℕ
  pub primary : Bool
  pub verified : Bool

abbrev is_verified : Option EmailAddress → Bool
is_verified none = false
is_verified (some e) = e.verified

-- `is_email_verified`
unfoldable pub is_email_verified : List EmailAddress → ℕ → Bool
is_email_verified rows user =
    is_verified (find (λ (e : EmailAddress). nat_eq e.user user && e.primary) rows)

-- `_feature_enabled`
unfoldable pub feature_enabled : Value → Bool
feature_enabled (bool b) = b
feature_enabled v = member (normalized v) ("1" ∷ "true" ∷ "yes" ∷ "on" ∷ [])

-- `resolved.update(others)`
unfoldable pub update {ℓ} : {V : Type ℓ} → Dict V → Dict V → Dict V
update d [] = d
update d (entry ∷ others) = update (insert entry.0 entry.1 d) others

-- What an evaluation reads.
pub record Flags : Type 0 where
  pub site : Site
  pub groups : List Group
  pub digest : String → ℕ
  pub features : List Feature

abbrev pub account_context : User → Context
account_context user = record {
  user = some user;
  anonymous_id = none;
  page = "account";
  request_overrides = none;
}

abbrev pub is_nil : List String → Bool
is_nil [] = true
is_nil (x ∷ xs) = false

abbrev pub decisions_or_none : Option (Dict Value) → Dict Value
decisions_or_none none = []
decisions_or_none (some d) = d

abbrev updated_from : Dict Value → Option (Dict Value × State) → Option (Dict Value × State)
updated_from resolved none = none
updated_from resolved (some (more, st)) = some (update resolved more, st)

abbrev pub fill_missing :
    Flags → User → Dict Value → List String → State → Option (Dict Value × State)
fill_missing flags user resolved missing st =
    if is_nil missing
    then some (resolved, st)
    else updated_from resolved (
        evaluate_many flags.site flags.groups flags.digest flags.features (account_context user)
          missing [] (record st { required_group_ids = [] }))

-- `personalization_features`: the decisions that the caller has, and the missing ones evaluated; `none` is
-- `ValueError`.
unfoldable pub personalization_features :
    Flags → User → Option (Dict Value) → State → Option (Dict Value × State)
personalization_features flags user decisions st =
    let resolved =
      keep_if (λ (e : String × Value). member e.0 personalization_flag_keys)
        (decisions_or_none decisions) in
    let missing =
      keep_if (λ (k : String). not (is_some (lookup k resolved))) personalization_flag_keys in
    fill_missing flags user resolved missing st

pub record Status : Type 0 where
  pub email_verified : Bool
  pub profile_complete : Bool
  pub account_active : Bool
  pub registration_completed : Bool
  pub profile_state : String
  pub profile_tier : String
  pub blocking_reasons : List String
  pub personalization_ui_enabled : Bool
  pub personalization_interstitial_enabled : Bool
  pub personalization_enforce_enabled : Bool
  pub personalization_context : String
  pub personalization_prompt_variant : String
  pub missing_fields : List String

abbrev pub status_with : Bool → Profile → Value → Value → Value → Status
status_with email_verified p ui interstitial enforce =
    let (complete, missing) = personalization_complete p in
    let legacy = p.personalization_origin == "legacy" in
    let state = if complete then "personalized" else "basic" in
    record {
      email_verified = email_verified;
      profile_complete = complete;
      account_active = complete;
      registration_completed = complete;
      profile_state = state;
      profile_tier = if state == "personalized" then "advanced" else "basic";
      blocking_reasons = if complete then [] else "PROFILE_FIELDS_INCOMPLETE" ∷ [];
      personalization_ui_enabled = feature_enabled ui;
      personalization_interstitial_enabled = feature_enabled interstitial;
      personalization_enforce_enabled = feature_enabled enforce;
      personalization_context =
          if complete then "complete" else if legacy then "legacy_required" else "new_registration";
      personalization_prompt_variant =
          if complete then "none" else if legacy then "migration_notice" else "registration_setup";
      missing_fields = missing;
    }

abbrev status_of : Bool → Profile → Option Value → Option Value → Option Value → Option Status
status_of e p (some ui) (some interstitial) (some enforce) =
    some (status_with e p ui interstitial enforce)
status_of e p _ _ _ = none

abbrev status_from : Bool → Profile → Option (Dict Value × State) → Option (Status × State)
status_from e p none = none
status_from e p (some (flags, st)) =
    elim (status_of e p (lookup "profile_personalization_ui" flags)
      (lookup "profile_personalization_interstitial" flags)
      (lookup "profile_personalization_enforce" flags)) [
        | none ↦ none
        | some status ↦ some (status, st)
      ]

-- `get_status`, of the profile given or stored; `none` is `ValueError` or `KeyError`.
unfoldable pub get_status :
    Flags
    → List EmailAddress
    → User
    → Option Profile
    → Option (Dict Value)
    → State
    → Option (Status × State)
get_status flags emails user profile decisions st =
    status_from (is_email_verified emails user.pk) (profile_or_fresh profile)
      (personalization_features flags user decisions st)

-- What the gate does: the action goes on, or is refused with 403 and the blocking reasons.
pub data Gate : Type 0 where
  open_gate : Gate
  profile_required : List String → Gate

abbrev pub gate_for : Status → Gate
gate_for status =
    if not status.personalization_enforce_enabled
    then open_gate
    else if status.profile_state == "personalized"
    then open_gate
    else profile_required status.blocking_reasons

-- `require_personalized_profile`
unfoldable pub require_personalized_profile :
    Flags → List EmailAddress → User → Option Profile → State → Option (Gate × State)
require_personalized_profile flags emails user profile st =
    elim (get_status flags emails user profile none st) [
      | none ↦ none
      | some (status, st') ↦ some (gate_for status, st')
    ]
