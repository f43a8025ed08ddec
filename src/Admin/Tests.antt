-- ===== src/Admin/Tests.antt =====
-- The admin login on concrete users and requests.
use mathlib.Core.List.{Memᴰ}
use jou_tak_web.Prelude.{
  ℕ, ◌+◌, ◌≤◌, String, ◌≡◌, ◌⊎◌, refl, true, false, none, some, [], ◌∷◌, arith,
}
use jou_tak_web.Prelude.Text.{decimal, lower, has_prefix}
use jou_tak_web.Values.{str}
use jou_tak_web.Admin.Urls.{
  UrlLibrary, IsSafePath, safe_admin_next, safe_admin_next-IsSafePath, is_safe_path, segments,
}
use jou_tak_web.Admin.Mfa.{
  totp, Authenticator, AdminUser, Session, Env, PendingAdminLogin, ok, complete_admin_login,
  is_admin_mfa_verified, has_primary, admin_user_has_primary_mfa, positive_setting,
  clear_admin_mfa_state, clear_pending_admin_login,
}
use jou_tak_web.Admin.Mfa.Verified.{
  IsAssured, is_admin_mfa_verified-cases, complete_admin_login-verified,
}
use jou_tak_web.Admin.Mfa.Protocol.{World, Step, Reach, verified-completed}
use jou_tak_web.Prelude.{Option, member, if◌then◌else◌, List, all, map, ◌==◌, ◌||◌, ◌≢◌}
use Prim.Native.String.{◌++◌}
use jou_tak_web.Admin.Hosts.{
  passed, Hosts, AdminRequest, bare, with_port, has_no_colon, route_host, enforce_mfa,
  is_listed_host, normalized_host, is_admin_path, is_blocked_path, is_admin_mfa_path,
  route_host-passed, enforce_mfa-passed,
}
use jou_tak_web.Admin.Origin.{
  Split, check_same_origin, admin_request_has_exact_origin, check_same_origin-passed,
}

-- Every address is of the admin host, and is its own path.
abbrev urls : UrlLibrary
urls = record {
  is_allowed = λ s. true;
  split_path = λ s. s;
  split_query = λ s. "";
  unsplit = λ path query. path;
}

abbrev admin : AdminUser
admin = record { pk = 7; is_authenticated = true; is_active = true; is_staff = true }

abbrev phone : Authenticator
phone = record { pk = 1; user_id = 7; type_ = totp }

abbrev env : Env
env = record {
  urls = urls;
  pending_ttl = none;
  assurance_ttl = none;
  users = admin ∷ [];
  authenticators = phone ∷ [];
  login = λ user s. s;
  cycle_key = λ s. record s { key = "fresh" };
}

abbrev login : PendingAdminLogin
login = record { user = admin; started_at = 100; next_url = "/admin/users/"; flow_id = "f" }

abbrev empty_session : Session
empty_session = record { key = "old"; pending = none; assurance = none; webauthn = false }

abbrev logged_in : Session
logged_in = (complete_admin_login env 120 login phone "totp" true empty_session).1

completes :
    (complete_admin_login env 120 login phone "totp" true empty_session).0 ≡ ok "/admin/users/"
unfolding complete_admin_login clear_admin_mfa_state clear_pending_admin_login
    admin_user_has_primary_mfa has_primary safe_admin_next is_safe_path segments has_prefix
completes = refl

complete_admin_login-verified_example :
    (is_admin_mfa_verified env 28921 (some admin) logged_in).0 ≡ false
unfolding positive_setting decimal
complete_admin_login-verified_example =
    complete_admin_login-verified env 120 28921 login phone "totp" "/admin/users/" true
      empty_session admin completes refl refl refl refl (omega arith)

is_admin_mfa_verified-cases_example :
    ((is_admin_mfa_verified env 200 (some admin) logged_in).0 ≡ true)
      × ((is_admin_mfa_verified env 200 (some admin) logged_in).1 ≡ logged_in)
      × IsAssured env 200 admin logged_in
    ⊎ ((is_admin_mfa_verified env 200 (some admin) logged_in).0 ≡ false)
      × ((is_admin_mfa_verified env 200 (some admin) logged_in).1.assurance ≡ none)
is_admin_mfa_verified-cases_example = is_admin_mfa_verified-cases env 200 admin logged_in

verifies : (is_admin_mfa_verified env 200 (some admin) logged_in).0 ≡ true
unfolding positive_setting decimal
verifies =
    complete_admin_login-verified env 120 200 login phone "totp" "/admin/users/" true empty_session
      admin completes refl refl refl refl (omega arith)

abbrev before : World
before = record { session = empty_session; log = [] }

abbrev after_login : World
after_login = record { session = logged_in; log = (7, 120) ∷ [] }

reached : Reach env before after_login
reached =
    Reach.after Reach.stay
      (Step.complete 120 login phone "totp" true "/admin/users/" completes refl)

verified-completed_example :
    (pk : ℕ) × (t : ℕ) × Memᴰ (pk, t) after_login.log
    × (decimal pk ≡ decimal 7)
    × (t ≤ 200)
    × (200 ≤ t + positive_setting none 28800)
verified-completed_example =
    verified-completed env (λ s. refl) before after_login 200 admin refl reached verifies

safe_admin_next-IsSafePath_example :
    (safe_admin_next urls (str "/admin/users/") ≡ "/admin/")
    ⊎ ((s : String) × (str "/admin/users/" ≡ str s)
        × (safe_admin_next urls (str "/admin/users/")
            ≡ urls.unsplit (urls.split_path s) (urls.split_query s))
        × (urls.is_allowed s ≡ true)
        × IsSafePath (urls.split_path s))
safe_admin_next-IsSafePath_example = safe_admin_next-IsSafePath urls (str "/admin/users/")

abbrev hosts : Hosts
hosts = record { admin = "admin.example.org" ∷ []; api = "api.example.org" ∷ [] }

api_request_passes : route_host hosts "api.example.org:443" "/bff/bootstrap" ≡ passed
unfolding route_host is_listed_host normalized_host lower is_admin_path is_blocked_path has_prefix
api_request_passes = refl

names_have_no_colon : all has_no_colon hosts.admin ≡ true
names_have_no_colon = refl

abbrev bootstrap : String
bootstrap = "/bff/bootstrap"

route_host-passed_example :
    (member (lower "api.example.org") (map lower hosts.admin) ≡ true)
      × ((bootstrap == "/admin"
            || has_prefix "/admin/" bootstrap
            || bootstrap == "/static"
            || has_prefix "/static/" bootstrap
            || bootstrap == "/media"
            || has_prefix "/media/" bootstrap)
          ≡ true)
    ⊎ (member (lower "api.example.org") (map lower hosts.admin) ≡ false)
      × (bootstrap ≢ "/admin")
      × (has_prefix "/admin/" bootstrap ≡ false)
      × (bootstrap ≢ "/static/admin")
      × (has_prefix "/static/admin/" bootstrap ≡ false)
route_host-passed_example =
    route_host-passed hosts "api.example.org" "api.example.org:443" bootstrap names_have_no_colon
      refl (with_port "443") api_request_passes

abbrev page_request : AdminRequest
page_request = record {
  scheme = "https";
  host = "admin.example.org";
  method = "GET";
  path = "/admin/users/";
  full_path = "/admin/users/";
  origin = none;
  referer = none;
}

page_is_protected : is_admin_mfa_path "/admin/users/" ≡ true
unfolding is_admin_mfa_path has_prefix
page_is_protected = refl

page_passes :
    (enforce_mfa env (λ s. s) (λ to. to) 200 page_request (some admin) logged_in).0 ≡ passed
unfolding enforce_mfa admin_user_has_primary_mfa has_primary is_admin_mfa_path has_prefix
page_passes = rw verifies refl

enforce_mfa-passed_example :
    (admin_user_has_primary_mfa env.authenticators (some admin) ≡ true)
    × ((is_admin_mfa_verified env 200 (some admin) logged_in).0 ≡ true)
enforce_mfa-passed_example =
    enforce_mfa-passed env (λ s. s) (λ to. to) 200 page_request admin logged_in page_is_protected
      refl refl page_passes

-- A parser that knows one origin.
abbrev split_origin : Split
split_origin = record {
  scheme = "https";
  netloc = "admin.example.org";
  path = "";
  query = "";
  username = none;
  password = none;
  hostname = some "admin.example.org";
  port = none;
}

abbrev parse : String → Option Split
parse address = if address == "https://admin.example.org" then some split_origin else none

abbrev form_request : AdminRequest
form_request = record page_request { method = "POST"; origin = some "https://admin.example.org" }

abbrev allowed : List String
allowed = "https://admin.example.org" ∷ []

form_passes : check_same_origin parse allowed hosts form_request ≡ passed
unfolding check_same_origin is_listed_host normalized_host lower has_prefix
    admin_request_has_exact_origin jou_tak_web.Admin.Origin.origin_parts
    jou_tak_web.Prelude.Text.strip jou_tak_web.Admin.Origin.has_control
    jou_tak_web.Admin.Origin.has_char
form_passes = refl

check_same_origin-passed_example :
    (member "https://admin.example.org" allowed ≡ true)
    × ((form_request.origin ≡ some "https://admin.example.org")
        ⊎ (form_request.origin ≡ none)
          × (referer : String) × (form_request.referer ≡ some referer)
          × (s : Split) × (parse referer ≡ some s)
          × (s.scheme ++ "://" ++ s.netloc ≡ "https://admin.example.org"))
unfolding lower has_prefix
check_same_origin-passed_example =
    check_same_origin-passed parse allowed hosts form_request "admin.example.org"
      names_have_no_colon refl bare refl refl refl form_passes
