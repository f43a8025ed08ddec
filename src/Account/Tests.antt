-- ===== src/Account/Tests.antt =====
-- The update of a profile and the status of an account, at concrete rows.
use jou_tak_web.Prelude.{
  ◌≡◌, ◌⊎◌, refl, true, false, ◌||◌, not, ◌&&◌, ◌==◌, if◌then◌else◌, none, some, [], ◌∷◌, leb,
  is_some,
}
use jou_tak_web.Prelude.Assoc.{Dict, lookup, insert}
use jou_tak_web.Prelude.Text.{strip, lower, has_prefix}
use jou_tak_web.Values.{Value, bool, shown, normalized}
use jou_tak_web.Registry.{get_default_value}
use jou_tak_web.Registry.Catalogue.{feature_registry}
use jou_tak_web.Features.Model.{State, User}
use jou_tak_web.Features.Policy.{coerce_value, coerce_text}
use jou_tak_web.Features.Evaluate.{
  evaluate_many, evaluate_flag, active_definition, registry_default,
}
use jou_tak_web.Account.Profile.{
  Profile, fresh_profile, normalize_vk_username, without_first_prefix, without_prefix, lstrip_mark,
  rstrip_mark, is_vk_username, is_minecraft_nick, is_itmo_isu, personalization_complete,
  missing_personalization_fields,
}
use jou_tak_web.Account.Update.{
  fine, Fields, Names, Rules, update_profile_fields, update_name, normalize_name, apply_fields,
  apply_vk_username, apply_minecraft_nick, apply_minecraft_has_license, apply_is_itmo_student,
  apply_itmo_isu, mark_completed, save_fields, profile_or_fresh,
}
use jou_tak_web.Account.Update.Valid.{is_valid_profile, update_profile_fields_lem}
use jou_tak_web.Account.Status.{
  Flags, feature_enabled, open_gate, profile_required, personalization_features,
  require_personalized_profile, update,
}
use jou_tak_web.Account.Status.Snapshot.{
  personalization_features_lem, require_personalized_profile_lem,
}

vk_address : normalize_vk_username " https://VK.com/@some.one/ " ≡ "some.one"
unfolding normalize_vk_username without_first_prefix without_prefix lstrip_mark rstrip_mark strip
    lower has_prefix
vk_address = refl

abbrev rules : Rules
rules = record { max_length = λ field. some 150; is_digit = λ c. leb 48 c && leb c 57 }

abbrev names : Names
names = record { first_name = "A"; last_name = "B" }

abbrev asked : Fields
asked = record {
  vk_username = some "@some.one";
  minecraft_nick = some " Steve ";
  minecraft_has_license = some true;
  is_itmo_student = some false;
  itmo_isu = some "12345";
}

abbrev filled : Profile
filled = record {
  vk_username = "some.one";
  minecraft_nick = "Steve";
  minecraft_has_license = some true;
  is_itmo_student = some false;
  itmo_isu = none;
  completed_at = some 50;
  personalization_origin = "signup";
}

fills : update_profile_fields rules 50 none none asked names none ≡ fine (names, filled, filled)
unfolding update_profile_fields update_name normalize_name apply_fields apply_vk_username
    apply_minecraft_nick apply_minecraft_has_license apply_is_itmo_student apply_itmo_isu
    mark_completed save_fields normalize_vk_username without_first_prefix without_prefix lstrip_mark
    rstrip_mark strip lower has_prefix is_vk_username is_minecraft_nick is_itmo_isu
    personalization_complete missing_personalization_fields
fills = refl

update_profile_fields_lem_example :
    (filled ≡ filled)
    × (is_valid_profile rules.is_digit filled ≡ true)
    × ((not (personalization_complete filled).0 || is_some filled.completed_at) ≡ true)
    × (((profile_or_fresh none).completed_at ≡ none)
        ⊎ (filled.completed_at ≡ (profile_or_fresh none).completed_at))
update_profile_fields_lem_example =
    update_profile_fields_lem rules 50 none none asked names names none filled filled refl fills

abbrev flags : Flags
unfolding feature_registry
flags = record {
  site = record { registry = feature_registry; setting = λ name. none };
  groups = [];
  digest = λ payload. 0;
  features = [];
}

abbrev user : User
user = record { pk = 7; is_staff = false; is_authenticated = true }

abbrev empty_state : State
empty_state = record { assignments = []; required_group_ids = [] }

abbrev caller : Dict Value
caller = ("profile_personalization_enforce", bool true) ∷ []

abbrev resolved : Dict Value
resolved =
    ("profile_personalization_enforce", bool true)
    ∷ ("profile_personalization_ui", bool true)
    ∷ ("profile_personalization_interstitial", bool true)
    ∷ []

resolves :
    personalization_features flags user (some caller) empty_state ≡ some (resolved, empty_state)
unfolding personalization_features lookup insert update evaluate_many evaluate_flag
    active_definition registry_default get_default_value coerce_value coerce_text feature_registry
    normalized shown lower strip
resolves = refl

personalization_features_lem_example :
    (is_some (lookup "profile_personalization_enforce" resolved) ≡ true)
    × (lookup "profile_personalization_enforce" resolved
          ≡ lookup "profile_personalization_enforce" caller
        ⊎ (lookup "profile_personalization_enforce" caller ≡ none))
personalization_features_lem_example =
    personalization_features_lem flags user (some caller) empty_state empty_state resolved
      "profile_personalization_enforce" resolves refl

-- The deployment enforces personalization.
abbrev enforcing : Flags
unfolding feature_registry
enforcing = record {
  site = record {
    registry = feature_registry;
    setting =
        λ name. if name == "FF_PROFILE_PERSONALIZATION_ENFORCE" then some (bool true) else none;
  };
  groups = [];
  digest = λ payload. 0;
  features = [];
}

abbrev enforced : Dict Value
enforced =
    ("profile_personalization_ui", bool true)
    ∷ ("profile_personalization_interstitial", bool true)
    ∷ ("profile_personalization_enforce", bool true)
    ∷ []

enforces : personalization_features enforcing user none empty_state ≡ some (enforced, empty_state)
unfolding personalization_features lookup insert update evaluate_many evaluate_flag
    active_definition registry_default get_default_value coerce_value coerce_text feature_registry
    normalized shown lower strip
enforces = refl

require_personalized_profile_lem_example :
    (enforce : Value) × (lookup "profile_personalization_enforce" enforced ≡ some enforce)
    × (require_personalized_profile enforcing [] user (some fresh_profile) empty_state
        ≡ some (
          if feature_enabled enforce && not (personalization_complete fresh_profile).0
              then profile_required ("PROFILE_FIELDS_INCOMPLETE" ∷ [])
              else open_gate,
          empty_state,
        ))
require_personalized_profile_lem_example =
    require_personalized_profile_lem enforcing [] user (some fresh_profile) empty_state empty_state
      enforced enforces
