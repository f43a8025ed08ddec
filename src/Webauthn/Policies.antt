-- ===== src/Webauthn/Policies.antt =====
-- backend/accounts/middleware.py: the policies of the WebAuthn routes.
use jou_tak_web.Prelude.{String, Bool, true, false, [], ◌∷◌, ◌==◌, if◌then◌else◌}
use jou_tak_web.Prelude.Assoc.{Dict, insert}
use jou_tak_web.Webauthn.ClientData.{webauthn_create, webauthn_get}
use Prim.Native.String.{◌++◌}

abbrev pub account_surface : String
account_surface = "account"

abbrev pub admin_surface : String
admin_surface = "admin"

-- `_CeremonyPolicy`
pub record CeremonyPolicy : Type 0 where
  pub method : String
  pub expected_type : String
  pub surface : String
  pub nested_credential : Bool
  pub purpose : String

abbrev account_policy : String → String → String → CeremonyPolicy
account_policy method expected_type purpose = record {
  method = method;
  expected_type = expected_type;
  surface = account_surface;
  nested_credential = true;
  purpose = purpose;
}

abbrev admin_policy : String → CeremonyPolicy
admin_policy method = record {
  method = method;
  expected_type = webauthn_get;
  surface = admin_surface;
  nested_credential = false;
  purpose = "admin.authenticate";
}

-- The routes of one client, "app" or "browser".
unfoldable client_policies : String → Dict CeremonyPolicy → Dict CeremonyPolicy
client_policies client policies =
    let namespace = "headless:" ++ client ++ ":mfa:" in
    let login =
      insert (namespace ++ "login_webauthn") (account_policy "POST" webauthn_get "account.login")
        policies in
    let authenticate =
      insert (namespace ++ "authenticate_webauthn")
        (account_policy "POST" webauthn_get "account.authenticate") login in
    let reauthenticate =
      insert (namespace ++ "reauthenticate_webauthn")
        (account_policy "POST" webauthn_get "account.reauthenticate") authenticate in
    let manage =
      insert (namespace ++ "manage_webauthn")
        (account_policy "POST" webauthn_create "account.register") reauthenticate in
    insert (namespace ++ "signup_webauthn") (account_policy "PUT" webauthn_create "account.signup")
      manage

-- `_build_completion_policies`
unfoldable pub completion_policies : Dict CeremonyPolicy
unfolding client_policies
completion_policies =
    insert "admin:admin_mfa_webauthn_complete" (admin_policy "POST")
      (client_policies "browser" (client_policies "app" []))

abbrev to_options : Dict CeremonyPolicy → Dict CeremonyPolicy
to_options [] = []
to_options ((route, policy) ∷ rest) =
    let later = to_options rest in
    if policy.surface == account_surface
    then (route, record policy { method = "GET" }) ∷ later
    else later

-- `_build_options_policies`
unfoldable pub options_policies : Dict CeremonyPolicy
unfolding completion_policies
options_policies =
    insert "admin:admin_mfa_webauthn_options" (admin_policy "GET") (to_options completion_policies)
