-- ===== src/Admin/Hosts.antt =====
-- backend/backend/middleware.py: which hosts serve the admin site, and the guard in front of its pages.
-- `get_host`, the scheme and `logout` are Django's.
use Prim.Native.Char.{Char, code}
use Prim.Native.String
use text.Mathlib.TextLemmas.{nil-append, cons-append}
use jou_tak_web.Prelude.{
  inl, inr, Bool-cases, eq_iff, all, ap, refl, ◌≢◌, ℕ, String, ◌≡◌, Bool, true, false, ◌&&◌, ◌||◌,
  not, Option, none, some, List, [], ◌∷◌, ◌==◌, nat_eq, any, member, map, arith, if◌then◌else◌, ◌⊎◌,
}
use jou_tak_web.Prelude.Text.{lower, has_prefix}
use jou_tak_web.Admin.Mfa.{
  Env, AdminUser, Session, drop_assurance, is_admin_mfa_verified, admin_user_has_primary_mfa,
}
use jou_tak_web.Admin.Urls.{safe_admin_next}
use jou_tak_web.Values.{str}

abbrev colon : Char
colon = Char.char 58 tt

-- `host.split(":", 1)[0]`
before_colon : String → String
before_colon String.[] = ""
before_colon (String.◌∷◌ c s) =
    let rest = before_colon s in if nat_eq (code c) b':' then "" else String.◌∷◌ c rest

-- `_normalized_host`, of a host that is there.
unfoldable pub normalized_host : String → String
unfolding before_colon
normalized_host host = lower (before_colon host)

unfoldable pub is_listed_host : List String → String → Bool
is_listed_host hosts host = member (normalized_host host) (map normalized_host hosts)

abbrev is_under : List (String × String) → String → Bool
is_under prefixes path = any (λ (p : String × String). path == p.0 || has_prefix p.1 path) prefixes

-- Each prefix without and with its last "/".
abbrev admin_allowed_prefixes : List (String × String)
admin_allowed_prefixes =
    ("/admin", "/admin/") ∷ ("/static", "/static/") ∷ ("/media", "/media/") ∷ []

abbrev api_blocked_prefixes : List (String × String)
api_blocked_prefixes = ("/admin", "/admin/") ∷ ("/static/admin", "/static/admin/") ∷ []

unfoldable pub is_admin_path : String → Bool
is_admin_path path = path == "/" || is_under admin_allowed_prefixes path

unfoldable pub is_blocked_path : String → Bool
is_blocked_path path = is_under api_blocked_prefixes path

unfoldable pub is_admin_mfa_path : String → Bool
is_admin_mfa_path path =
    has_prefix "/admin/" path
    && not (has_prefix "/admin/login/" path)
    && not (has_prefix "/admin/mfa-verify/" path)

-- What a middleware does with a request: it answers, or hands it on.
pub data Outcome : Type 0 where
  redirect : String → Outcome
  forbidden : String → Outcome
  passed : Outcome

-- `settings.DJANGO_ADMIN_HOSTS` and `settings.DJANGO_API_HOSTS`.
pub record Hosts : Type 0 where
  pub admin : List String
  pub api : List String

-- `HostRoutingMiddleware`
unfoldable pub route_host : Hosts → String → String → Outcome
unfolding is_admin_path is_blocked_path
route_host hosts host path =
    let admin = is_listed_host hosts.admin host in
    let api = is_listed_host hosts.api host in
    if admin && path == "/"
    then redirect "/admin/"
    else if admin && not (is_admin_path path)
    then forbidden "Admin host exposes only admin assets."
    else if api && is_blocked_path path
    then forbidden "Admin surface is not available on this host."
    else if not admin && not api && is_blocked_path path
    then forbidden "Admin surface is not available on this host."
    else passed

pub record AdminRequest : Type 0 where
  pub scheme : String
  pub host : String
  pub method : String
  pub path : String
  pub full_path : String
  pub origin : Option String
  pub referer : Option String

abbrev is_privileged : Option AdminUser → Bool
is_privileged none = false
is_privileged (some u) = u.is_authenticated && u.is_active && u.is_staff

abbrev is_staff_session : Option AdminUser → Bool
is_staff_session none = false
is_staff_session (some u) = u.is_authenticated && u.is_staff

-- `AdminMFAEnforcementMiddleware`; `login_url` is the login page with the encoded next address.
unfoldable pub enforce_mfa :
    Env
    → (Session → Session)
    → (String → String)
    → ℕ
    → AdminRequest
    → Option AdminUser
    → Session
    → Outcome × Session
unfolding is_admin_mfa_path
enforce_mfa env logout login_url now r user s =
    if not (is_admin_mfa_path r.path)
    then (passed, s)
    else let seen = if is_privileged user then s else drop_assurance s in
      let verified =
        if admin_user_has_primary_mfa env.authenticators user
        then is_admin_mfa_verified env now user seen
        else (false, seen) in
      if is_staff_session user && not verified.0
      then (redirect (login_url (safe_admin_next env.urls (str r.full_path))), logout verified.1)
      else (passed, if is_staff_session user then verified.1 else seen)

abbrev pub has_no_colon : String → Bool
has_no_colon String.[] = true
has_no_colon (String.◌∷◌ c s) = not (nat_eq (code c) b':') && has_no_colon s

-- A `Host` header for a name: the name, alone or with a port behind it.
pub data IsHeader (name : String) : String → Type 0 where
  bare : IsHeader name name
  with_port : (port : String) → IsHeader name (String.◌++◌ name (String.◌∷◌ colon port))

before_colon-bare : (s : String) → has_no_colon s ≡ true → before_colon s ≡ s
unfolding before_colon
before_colon-bare String.[] h = refl
before_colon-bare (String.◌∷◌ c s) h = ground (arith, before_colon-bare s (ground (arith, h)))

before_colon-port :
    (s port : String)
    → has_no_colon s ≡ true
    → before_colon (String.◌++◌ s (String.◌∷◌ colon port)) ≡ s
unfolding before_colon
before_colon-port String.[] port h = rw (nil-append (String.◌∷◌ colon port)) refl
before_colon-port (String.◌∷◌ c s) port h =
    rw (cons-append c s (String.◌∷◌ colon port))
      (ground (arith, before_colon-port s port (ground (arith, h))))

normalized_host-name :
    (name host : String)
    → has_no_colon name ≡ true
    → IsHeader name host
    → normalized_host host ≡ lower name
unfolding normalized_host
normalized_host-name name host h bare = ap lower (before_colon-bare name h)
normalized_host-name name host h (with_port port) = ap lower (before_colon-port name port h)

map-normalized_host :
    (hosts : List String)
    → all has_no_colon hosts ≡ true
    → map normalized_host hosts ≡ map lower hosts
map-normalized_host [] h = refl
map-normalized_host (x ∷ xs) h =
    rw (normalized_host-name x x (ground (arith, h)) bare)
      (ap (λ t. lower x ∷ t) (map-normalized_host xs (ground (arith, h))))

pub is_listed_host-name :
    (hosts : List String) (name host : String)
    → all has_no_colon hosts ≡ true
    → has_no_colon name ≡ true
    → IsHeader name host
    → is_listed_host hosts host ≡ member (lower name) (map lower hosts)
unfolding is_listed_host
is_listed_host-name hosts name host clean h header =
    rw (normalized_host-name name host h header, map-normalized_host hosts clean) refl

-- A request for a host name, with a port or without one, is handed on only in two cases. Either the name is
-- one of the admin hosts, whatever the case of its letters, and the path is "/admin", "/static" or "/media"
-- or under one of them; or the name is none of them, and the path is neither "/admin" nor "/static/admin"
-- nor under one of them. The admin hosts are listed without ports.
pub route_host-passed :
    (hosts : Hosts) (name host path : String)
    → all has_no_colon hosts.admin ≡ true
    → has_no_colon name ≡ true
    → IsHeader name host
    → route_host hosts host path ≡ passed
    → (member (lower name) (map lower hosts.admin) ≡ true)
        × ((path == "/admin"
              || has_prefix "/admin/" path
              || path == "/static"
              || has_prefix "/static/" path
              || path == "/media"
              || has_prefix "/media/" path)
            ≡ true)
      ⊎ (member (lower name) (map lower hosts.admin) ≡ false)
        × (path ≢ "/admin")
        × (has_prefix "/admin/" path ≡ false)
        × (path ≢ "/static/admin")
        × (has_prefix "/static/admin/" path ≡ false)
unfolding route_host is_admin_path is_blocked_path
route_host-passed hosts name host path clean h header e =
    let listed = is_listed_host-name hosts.admin name host clean h header in
    elim (Bool-cases (is_listed_host hosts.admin host)) [
      | inl on ↦ inl (ground (arith, listed, on), ground (arith, on))
      | inr off ↦ inr (
        ground (arith, listed, off),
        ground (arith, off, eq_iff path "/admin"),
        ground (arith, off),
        ground (arith, off, eq_iff path "/static/admin"),
        ground (arith, off),
      )
    ]

-- A staff user's request for a protected admin page is handed on only if the user has a primary
-- authenticator and the session passes the check of the second factor.
pub enforce_mfa-passed :
    (env : Env) (logout : Session → Session) (login_url : String → String) (now : ℕ)
    (r : AdminRequest) (u : AdminUser) (s : Session)
    → is_admin_mfa_path r.path ≡ true
    → u.is_authenticated ≡ true
    → u.is_staff ≡ true
    → (enforce_mfa env logout login_url now r (some u) s).0 ≡ passed
    → (admin_user_has_primary_mfa env.authenticators (some u) ≡ true)
      × ((is_admin_mfa_verified env now (some u) s).0 ≡ true)
unfolding enforce_mfa is_admin_mfa_verified
enforce_mfa-passed env logout login_url now r u s prot auth staff h = ground arith
