-- ===== src/Admin/Mfa.antt =====
-- backend/accounts/services/admin_mfa.py: the pending login, the assurance that a completed login leaves
-- in the session, and the checks of it. Times are whole seconds. What Django's `login` does to the
-- session is a parameter, and so are the fresh flow id, and whether the rate epoch could be rotated in the
-- cache, which is an external service.
pub mod Verified
pub mod Protocol
use Prim.Native.String.{count}
use jou_tak_web.Prelude.{
  ℕ, ◌+◌, String, Bool, true, false, ◌&&◌, not, Option, none, some, List, [], ◌∷◌, ◌==◌, nat_eq,
  leb, ltb, any, find, member, if◌then◌else◌,
}
use jou_tak_web.Prelude.Text.{decimal}
use jou_tak_web.Values.{Value, bool, int, str, non_empty, Parsed, number, int_of}
use jou_tak_web.Admin.Urls.{UrlLibrary, safe_admin_next}

pub data AuthenticatorType : Type 0 where
  totp recovery_codes webauthn : AuthenticatorType
  other : String → AuthenticatorType

pub record Authenticator : Type 0 where
  pub pk : ℕ
  pub user_id : ℕ
  pub type_ : AuthenticatorType

pub record AdminUser : Type 0 where
  pub pk : ℕ
  pub is_authenticated : Bool
  pub is_active : Bool
  pub is_staff : Bool

-- The dictionaries that the code keeps in the session; it checks the types of their entries again.
pub record PendingState : Type 0 where
  pub version : Value
  pub user_pk : Value
  pub started_at : Value
  pub next : Value
  pub flow_id : Value

pub record Assurance : Type 0 where
  pub version : Value
  pub user_pk : Value
  pub verified_at : Value
  pub method : Value

-- The session's entries that the flow uses; `webauthn` stands for the three entries of a WebAuthn
-- ceremony, and `key` for the session's key.
pub record Session : Type 0 where
  pub key : String
  pub pending : Option PendingState
  pub assurance : Option Assurance
  pub webauthn : Bool

pub data MfaError : Type 0 where
  admin_mfa_required admin_role_changed authenticator_user_mismatch : MfaError
  authenticator_removed primary_mfa_removed rate_limit_backend_unavailable : MfaError
  does_not_exist : MfaError

pub record PendingAdminLogin : Type 0 where
  pub user : AdminUser
  pub started_at : ℕ
  pub next_url : String
  pub flow_id : String

abbrev is_primary : AuthenticatorType → Bool
is_primary totp = true
is_primary webauthn = true
is_primary _ = false

-- `PRIMARY_ADMIN_MFA_TYPES` among the user's authenticators.
unfoldable pub has_primary : List Authenticator → ℕ → Bool
has_primary rows pk = any (λ (a : Authenticator). nat_eq a.user_id pk && is_primary a.type_) rows

unfoldable pub admin_user_has_primary_mfa : List Authenticator → Option AdminUser → Bool
unfolding has_primary
admin_user_has_primary_mfa rows none = false
admin_user_has_primary_mfa rows (some u) = u.is_authenticated && has_primary rows u.pk

abbrev positive_or : ℕ → Parsed → ℕ
positive_or default (number n) = if ltb 0 n then n else default
positive_or default _ = default

-- `_positive_setting`
unfoldable pub positive_setting : Option Value → ℕ → ℕ
positive_setting none default = default
positive_setting (some v) default = positive_or default (int_of v)

-- `_valid_timestamp`
unfoldable pub valid_timestamp : ℕ → Value → ℕ → Bool
valid_timestamp now (int t) ttl = leb t now && leb now (t + ttl)
valid_timestamp now _ ttl = false

unfoldable pub clear_pending_admin_login : Session → Session
clear_pending_admin_login s = record s { pending = none; webauthn = false }

unfoldable pub clear_admin_mfa_state : Session → Session
unfolding clear_pending_admin_login
clear_admin_mfa_state s = record (clear_pending_admin_login s) { assurance = none }

abbrev pub drop_assurance : Session → Session
drop_assurance s = record s { assurance = none }

-- What the flow reads besides the session.
pub record Env : Type 0 where
  pub urls : UrlLibrary
  pub pending_ttl : Option Value
  pub assurance_ttl : Option Value
  pub users : List AdminUser
  pub authenticators : List Authenticator
  pub login : AdminUser → Session → Session
  pub cycle_key : Session → Session

pub data Result {ℓ} (A : Type ℓ) : Type ℓ where
  ok : A → Result A
  failed : MfaError → Result A

module _ (env : Env) (now : ℕ) where
  abbrev pending_of : AdminUser → String → String → PendingState
  pending_of user next flow = record {
    version = int 1;
    user_pk = str (decimal user.pk);
    started_at = int now;
    next = str next;
    flow_id = str flow;
  }

  unfoldable pub start_pending_admin_login :
      AdminUser → Value → String → Session → Result PendingAdminLogin × Session
  unfolding clear_admin_mfa_state admin_user_has_primary_mfa
  start_pending_admin_login user next_url flow s =
      let next = safe_admin_next env.urls next_url in
      if user.is_active
        && user.is_staff
        && admin_user_has_primary_mfa env.authenticators (some user)
      then (
        ok (record { user = user; started_at = now; next_url = next; flow_id = flow }),
        record (env.cycle_key (clear_admin_mfa_state s)) {
          pending = some (pending_of user next flow);
        },
      )
      else (failed admin_mfa_required, clear_admin_mfa_state s)

  abbrev text_of : Value → String
  text_of (str s) = s
  text_of _ = ""

  abbrev is_version_1 : Value → Bool
  is_version_1 (int n) = nat_eq n 1
  is_version_1 (bool b) = b
  is_version_1 _ = false

  abbrev seconds_of : Value → ℕ
  seconds_of (int n) = n
  seconds_of _ = 0

  abbrev is_admin_row : String → AdminUser → Bool
  is_admin_row pk u = decimal u.pk == pk && u.is_staff && u.is_active

  abbrev has_valid_entries : PendingState → Bool
  has_valid_entries p =
      is_version_1 p.version
      && non_empty (text_of p.user_pk)
      && not (ltb (count (text_of p.flow_id)) 16)
      && valid_timestamp now p.started_at (positive_setting env.pending_ttl 300)

  abbrev pending_for :
      PendingState → Option AdminUser → Session → Option PendingAdminLogin × Session
  pending_for p none s = (none, clear_pending_admin_login s)
  pending_for p (some u) s =
      if admin_user_has_primary_mfa env.authenticators (some u)
      then (
        some (record {
          user = u;
          started_at = seconds_of p.started_at;
          next_url = safe_admin_next env.urls p.next;
          flow_id = text_of p.flow_id;
        }),
        s,
      )
      else (none, clear_pending_admin_login s)

  abbrev pending_in : Option PendingState → Session → Option PendingAdminLogin × Session
  pending_in none s = (none, clear_pending_admin_login s)
  pending_in (some p) s =
      if has_valid_entries p
      then pending_for p (find (is_admin_row (text_of p.user_pk)) env.users) s
      else (none, clear_pending_admin_login s)

  unfoldable pub get_pending_admin_login : Session → Option PendingAdminLogin × Session
  unfolding clear_pending_admin_login admin_user_has_primary_mfa valid_timestamp positive_setting
  get_pending_admin_login s = pending_in s.pending s

  abbrev is_admin_session_user : Option AdminUser → Bool
  is_admin_session_user none = false
  is_admin_session_user (some u) = u.is_authenticated && u.is_active && u.is_staff

  abbrev pub is_method : Value → Bool
  is_method (str m) = member m ("totp" ∷ "recovery_code" ∷ "webauthn" ∷ [])
  is_method _ = false

  abbrev pub is_pk_of : AdminUser → Value → Bool
  is_pk_of u (str pk) = pk == decimal u.pk
  is_pk_of u _ = false

  abbrev is_assured : AdminUser → Option Assurance → Bool
  is_assured u none = false
  is_assured u (some a) =
      is_version_1 a.version
      && is_pk_of u a.user_pk
      && is_method a.method
      && valid_timestamp now a.verified_at (positive_setting env.assurance_ttl 28800)

  abbrev pub verified_as : Option AdminUser → Session → Bool
  verified_as none s = false
  verified_as (some u) s =
      u.is_authenticated && u.is_active && u.is_staff && is_assured u s.assurance

  -- Each check that fails removes the assurance.
  unfoldable pub is_admin_mfa_verified : Option AdminUser → Session → Bool × Session
  unfolding valid_timestamp positive_setting
  is_admin_mfa_verified user s = if verified_as user s then (true, s) else (false, drop_assurance s)

  abbrev assurance_with : List Authenticator → Option AdminUser → Bool × Session → Bool × Session
  assurance_with rows user (false, s) = (false, s)
  assurance_with rows user (true, s) =
      if admin_user_has_primary_mfa rows user then (true, s) else (false, drop_assurance s)

  unfoldable pub admin_request_has_mfa_assurance : Option AdminUser → Session → Bool × Session
  unfolding is_admin_mfa_verified admin_user_has_primary_mfa
  admin_request_has_mfa_assurance user s =
      if is_admin_session_user user
      then assurance_with env.authenticators user (is_admin_mfa_verified user s)
      else (false, drop_assurance s)

  abbrev same_type : AuthenticatorType → AuthenticatorType → Bool
  same_type totp totp = true
  same_type recovery_codes recovery_codes = true
  same_type webauthn webauthn = true
  same_type (other s) (other t) = s == t
  same_type _ _ = false

  -- `_method_for`; `none` is `unsupported_authenticator`.
  unfoldable pub method_for : AuthenticatorType → Option String
  method_for totp = some "totp"
  method_for recovery_codes = some "recovery_code"
  method_for webauthn = some "webauthn"
  method_for (other s) = none

  abbrev is_row : Authenticator → Authenticator → Bool
  is_row a b = nat_eq a.pk b.pk && nat_eq a.user_id b.user_id && same_type a.type_ b.type_

  abbrev pub assurance_of : AdminUser → String → Assurance
  assurance_of user method = record {
    version = int 1;
    user_pk = str (decimal user.pk);
    verified_at = int now;
    method = str method;
  }

  -- The new session: a fresh key where `login` kept the old one, and the assurance.
  abbrev pub assured_session : AdminUser → String → Session → Session
  assured_session user method s =
      let cleared = clear_admin_mfa_state s in
      let entered = env.login user cleared in
      let rotated = if entered.key == cleared.key then env.cycle_key entered else entered in
      record rotated { assurance = some (assurance_of user method) }

  abbrev complete_for :
      Option AdminUser
      → PendingAdminLogin
      → Authenticator
      → String
      → Bool
      → Session
      → Result String × Session
  complete_for none p a method rotated s = (failed does_not_exist, s)
  complete_for (some row) p a method rotated s =
      if not (row.is_active && row.is_staff)
      then (failed admin_role_changed, clear_admin_mfa_state s)
      else if not (nat_eq a.user_id p.user.pk)
      then (failed authenticator_user_mismatch, clear_admin_mfa_state s)
      else if not (any (is_row a) env.authenticators)
      then (failed authenticator_removed, clear_admin_mfa_state s)
      else if not (admin_user_has_primary_mfa env.authenticators (some p.user))
      then (failed primary_mfa_removed, clear_admin_mfa_state s)
      else if not rotated
      then (failed rate_limit_backend_unavailable, s)
      else (ok (safe_admin_next env.urls (str p.next_url)), assured_session p.user method s)

  -- `complete_admin_login`: the user's flags are read again from the table, which raises if the row is gone.
  unfoldable pub complete_admin_login :
      PendingAdminLogin → Authenticator → String → Bool → Session → Result String × Session
  unfolding clear_admin_mfa_state admin_user_has_primary_mfa
  complete_admin_login p a method rotated s =
      complete_for (find (λ (u : AdminUser). nat_eq u.pk p.user.pk) env.users) p a method rotated s
