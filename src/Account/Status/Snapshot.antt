-- ===== src/Account/Status/Snapshot.antt =====
-- The decisions behind an account's status: which are the caller's, and that none is missing.
use jou_tak_web.Prelude.{
  ap, ℕ, String, ◌≡◌, ◌⊎◌, inl, inr, refl, ◌∙◌, Bool, true, false, ◌&&◌, ◌||◌, not, Option, none,
  some, List, [], ◌∷◌, arith, keep_if, is_some, member, if◌then◌else◌, Bool-cases, Option-cases,
  eq_iff,
}
use jou_tak_web.Prelude.Assoc.{Dict, lookup, insert, lookup-insert}
use jou_tak_web.Values.{Value}
use jou_tak_web.Registry.Catalogue.{personalization_flag_keys}
use jou_tak_web.Features.Model.{State, User, Context, Feature, Group}
use jou_tak_web.Features.Evaluate.{evaluate_flag, evaluate_many}
use jou_tak_web.Registry.{Site}
use jou_tak_web.Account.Profile.{Profile, personalization_complete}
use jou_tak_web.Account.Update.{profile_or_fresh}
use jou_tak_web.Account.Status.{
  EmailAddress, Flags, update, decisions_or_none, fill_missing, personalization_features,
  get_status, Gate, gate_for, open_gate, profile_required, require_personalized_profile, is_nil,
  account_context, feature_enabled, status_with, is_email_verified,
}

lookup-update_absent :
    (k : String) (d others : Dict Value)
    → lookup k others ≡ none
    → lookup k (update d others) ≡ lookup k d
unfolding update lookup
lookup-update_absent k d [] h = refl
lookup-update_absent k d ((j, v) ∷ others) h =
    ground
      (arith, lookup-update_absent k (insert j v d) others (ground arith), lookup-insert j k v d)

has_key-update :
    (k : String) (d others : Dict Value)
    → is_some (lookup k (update d others)) ≡ (is_some (lookup k d) || is_some (lookup k others))
unfolding update lookup
has_key-update k d [] = ground arith
has_key-update k d ((j, v) ∷ others) =
    ground (arith, has_key-update k (insert j v d) others, lookup-insert j k v d)

-- `evaluate_many` answers for the keys it is asked for, and for no other.
has_key-evaluate_many :
    (site : Site) (groups : List Group) (digest : String → ℕ) (features : List Feature)
    (c : Context) (k : String) (keys : List String) (resolved out : Dict Value) (st st' : State)
    → evaluate_many site groups digest features c keys resolved st ≡ some (out, st')
    → is_some (lookup k out) ≡ (member k keys || is_some (lookup k resolved))
unfolding evaluate_many
has_key-evaluate_many site groups digest features c k [] resolved out st st' e = ground arith
has_key-evaluate_many site groups digest features c k (key ∷ keys) resolved out st st' e =
    elim (Option-cases (evaluate_flag site groups digest features key c st)) [
      | inl raised ↦ cc
      | inr ((v, s), found) ↦
          let ih =
            has_key-evaluate_many site groups digest features c k keys (insert key v resolved) out s
              st' (rw (found, evaluate_many) at e) in
          ground (arith, ih, lookup-insert key k v resolved, eq_iff k key, eq_iff key k)
    ]

lookup-keep_if :
    (p : String → Bool) (k : String) (d : Dict Value)
    → lookup k (keep_if (λ (e : String × Value). p e.0) d) ≡ (if p k then lookup k d else none)
unfolding lookup
lookup-keep_if p k [] = ground arith
lookup-keep_if p k ((j, v) ∷ d) = ground (arith, lookup-keep_if p k d, eq_iff j k)

member-keep_if :
    (p : String → Bool) (k : String) (xs : List String)
    → member k (keep_if p xs) ≡ (p k && member k xs)
member-keep_if p k [] = ground arith
member-keep_if p k (x ∷ xs) = ground (arith, member-keep_if p k xs, eq_iff k x)

is_nil-member : (xs : List String) (k : String) → is_nil xs ≡ true → member k xs ≡ false
is_nil-member [] k h = refl
is_nil-member (x ∷ xs) k h = cc

abbrev resolved_of : Option (Dict Value) → Dict Value
resolved_of decisions =
    keep_if (λ (e : String × Value). member e.0 personalization_flag_keys)
      (decisions_or_none decisions)

abbrev missing_of : Dict Value → List String
missing_of resolved =
    keep_if (λ (k : String). not (is_some (lookup k resolved))) personalization_flag_keys

has_key-empty : (k : String) → is_some (lookup {V = Value} k []) ≡ false
unfolding lookup
has_key-empty k = refl

none_of : (o : Option Value) → is_some o ≡ false → o ≡ none
none_of o h = ground arith

-- The filled dictionary keeps what it had, and has every key that was missing.
fill_missing-lookup :
    (flags : Flags) (user : User) (resolved out : Dict Value) (keys : List String) (st st' : State)
    (k : String)
    → fill_missing flags user resolved keys st ≡ some (out, st')
    → (is_some (lookup k out) ≡ (is_some (lookup k resolved) || member k keys))
      × ((member k keys ≡ true) ⊎ (lookup k out ≡ lookup k resolved))
fill_missing-lookup flags user resolved out keys st st' k e = elim (Bool-cases (is_nil keys)) [
  | inl all_there ↦
      let same : resolved ≡ out = cc (rw all_there at e) in
      let absent = is_nil-member keys k all_there in rw (← same) (ground (arith, absent), inr refl)
  | inr some_missing ↦
      elim (Option-cases (
        evaluate_many flags.site flags.groups flags.digest flags.features (account_context user)
          keys [] (record st { required_group_ids = [] }))) [
            | inl raised ↦ absurd (ground arith)
            | inr ((more, s), found) ↦
                let same : update resolved more ≡ out = ground arith in
                let listed =
                  has_key-evaluate_many flags.site flags.groups flags.digest flags.features
                    (account_context user) k keys [] more _ s found in
                let merged = has_key-update k resolved more in
                rw (← same) (
                  ground (arith, merged, listed, has_key-empty k),
                  elim (Bool-cases (member k keys)) [
                    | inl asked ↦ inl asked
                    | inr absent ↦ inr (
                        lookup-update_absent k resolved more
                          (none_of (lookup k more) (ground (arith, listed, has_key-empty k))))
                  ],
                )
          ]
]

-- The flags behind the status are a snapshot: each of the personalization keys has a value, and where the
-- caller passes a decision for such a key, that value is the caller's decision.
pub personalization_features_lem :
    (flags : Flags) (user : User) (decisions : Option (Dict Value)) (st st' : State)
    (out : Dict Value) (k : String)
    → personalization_features flags user decisions st ≡ some (out, st')
    → member k personalization_flag_keys ≡ true
    → (is_some (lookup k out) ≡ true)
      × (lookup k out ≡ lookup k (decisions_or_none decisions)
          ⊎ (lookup k (decisions_or_none decisions) ≡ none))
unfolding personalization_features
personalization_features_lem flags user decisions st st' out k e known =
    let resolved = resolved_of decisions in
    let keys = missing_of resolved in
    let (has, same) = fill_missing-lookup flags user resolved out keys st st' k e in
    let asked =
      member-keep_if (λ (j : String). not (is_some (lookup j resolved))) k
        personalization_flag_keys in
    let own =
      lookup-keep_if (λ (j : String). member j personalization_flag_keys) k
        (decisions_or_none decisions) in
    let own_value : lookup k resolved ≡ lookup k (decisions_or_none decisions) =
      ground (arith, own) in
    (
      ground (arith, has, asked),
      elim same [
        | inl missing ↦ inr (none_of _ (ground (arith, asked, own_value)))
        | inr kept ↦ inl (kept ∙ own_value)
      ],
    )

value_there : (o : Option Value) → is_some o ≡ true → (v : Value) × (o ≡ some v)
value_there (some v) h = (v, refl)
value_there none h = cc

-- The gate that a profile and the value of the enforcement flag ask for.
abbrev pub expected_gate : Profile → Value → Gate
expected_gate p enforce =
    if feature_enabled enforce && not (personalization_complete p).0
    then profile_required ("PROFILE_FIELDS_INCOMPLETE" ∷ [])
    else open_gate

gate_for-expected :
    (e : Bool) (p : Profile) (ui interstitial enforce : Value)
    → gate_for (status_with e p ui interstitial enforce) ≡ expected_gate p enforce
gate_for-expected e p ui interstitial enforce = elim (Bool-cases (personalization_complete p).0) [
  | inl complete ↦ rw complete (ground arith)
  | inr incomplete ↦ rw incomplete (ground arith)
]

require_personalized_profile-given :
    (flags : Flags) (emails : List EmailAddress) (user : User) (profile : Option Profile)
    (st st' : State) (out : Dict Value) (ui interstitial enforce : Value)
    → personalization_features flags user none st ≡ some (out, st')
    → lookup "profile_personalization_ui" out ≡ some ui
    → lookup "profile_personalization_interstitial" out ≡ some interstitial
    → lookup "profile_personalization_enforce" out ≡ some enforce
    → require_personalized_profile flags emails user profile st
      ≡ some (expected_gate (profile_or_fresh profile) enforce, st')
unfolding require_personalized_profile get_status
require_personalized_profile-given flags emails user profile st st' out ui interstitial enforce e
      found_ui found_interstitial found =
    rw (require_personalized_profile, get_status, e)
      (rw (found_ui, found_interstitial, found)
        (ap (λ g. some (g, st'))
          (gate_for-expected (is_email_verified emails user.pk) (profile_or_fresh profile) ui
            interstitial enforce)))

-- The gate of personalized actions answers wherever the personalization flags can be evaluated. It refuses
-- a user exactly if the enforcement flag is evaluated to a value that enables it and the profile is
-- incomplete, and then says that fields are incomplete; everybody else is let through.
pub require_personalized_profile_lem :
    (flags : Flags) (emails : List EmailAddress) (user : User) (profile : Option Profile)
    (st st' : State) (out : Dict Value)
    → personalization_features flags user none st ≡ some (out, st')
    → (enforce : Value) × (lookup "profile_personalization_enforce" out ≡ some enforce)
      × (require_personalized_profile flags emails user profile st
          ≡ some (
            if feature_enabled enforce
                  && not (personalization_complete (profile_or_fresh profile)).0
                then profile_required ("PROFILE_FIELDS_INCOMPLETE" ∷ [])
                else open_gate,
            st',
          ))
require_personalized_profile_lem flags emails user profile st st' out e =
    let there = λ (k : String) (h : member k personalization_flag_keys ≡ true).
      value_there (lookup k out)
        (personalization_features_lem flags user none st st' out k e h).0 in
    let (ui, found_ui) = there "profile_personalization_ui" refl in
    let (interstitial, found_interstitial) = there "profile_personalization_interstitial" refl in
    let (enforce, found) = there "profile_personalization_enforce" refl in
    (
      enforce,
      found,
      require_personalized_profile-given flags emails user profile st st' out ui interstitial
          enforce e found_ui found_interstitial found,
    )
