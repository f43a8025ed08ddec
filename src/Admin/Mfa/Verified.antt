-- ===== src/Admin/Mfa/Verified.antt =====
-- When the second factor counts as verified.
use jou_tak_web.Prelude.{
  ℕ, ◌+◌, ◌≤◌, String, ◌≡◌, refl, true, false, none, some, arith, Bool-cases, Option-cases, ap, inl,
  inr, eq_iff, ◌⊎◌, member, Bool, [], ◌∷◌, ◌==◌, leb, ◌&&◌,
}
use jou_tak_web.Prelude.Text.{decimal}
use jou_tak_web.Values.{Value, null, bool, int, str}
use jou_tak_web.Admin.Mfa.{
  Env, Session, AdminUser, Assurance, Authenticator, PendingAdminLogin, ok, positive_setting,
  valid_timestamp, verified_as, is_admin_mfa_verified, complete_admin_login, is_pk_of,
  assured_session,
}

-- The session holds an assurance for the user, given at most the set time ago.
pub record IsAssured (env : Env) (now : ℕ) (u : AdminUser) (s : Session) : Type 0 where
  pub state : Assurance
  pub at : ℕ
  pub held : s.assurance ≡ some state
  pub for_user : state.user_pk ≡ str (decimal u.pk)
  pub given : state.verified_at ≡ int at
  pub not_later : at ≤ now
  pub fresh : now ≤ at + positive_setting env.assurance_ttl 28800
  pub active : u.is_active ≡ true
  pub staff : u.is_staff ≡ true

timestamp_inv :
    (now ttl : ℕ) (v : Value)
    → valid_timestamp now v ttl ≡ true
    → (t : ℕ) × (v ≡ int t) × (t ≤ now) × (now ≤ t + ttl)
unfolding valid_timestamp
timestamp_inv now ttl null h = cc
timestamp_inv now ttl (bool b) h = cc
timestamp_inv now ttl (int t) h = (t, refl, ground arith, ground arith)
timestamp_inv now ttl (str s) h = cc

pk_inv :
    (env : Env) (now : ℕ) (u : AdminUser) (v : Value)
    → is_pk_of env now u v ≡ true
    → v ≡ str (decimal u.pk)
pk_inv env now u null h = cc
pk_inv env now u (bool b) h = cc
pk_inv env now u (int n) h = cc
pk_inv env now u (str s) h = ap str ((eq_iff s (decimal u.pk)).0 h)

IsAssured-inv :
    (env : Env) (now : ℕ) (u : AdminUser) (s : Session) (a : Assurance)
    → s.assurance ≡ some a
    → verified_as env now (some u) s ≡ true
    → IsAssured env now u s
IsAssured-inv env now u s a e h =
    let (t, given, not_later, fresh) =
      timestamp_inv now (positive_setting env.assurance_ttl 28800) a.verified_at (ground arith) in
    record {
      state = a;
      at = t;
      held = e;
      for_user = pk_inv env now u a.user_pk (ground arith);
      given = given;
      not_later = not_later;
      fresh = fresh;
      active = ground arith;
      staff = ground arith;
    }

verified_inv :
    (env : Env) (now : ℕ) (u : AdminUser) (s : Session)
    → verified_as env now (some u) s ≡ true
    → IsAssured env now u s
verified_inv env now u s h = elim (Option-cases s.assurance) [
  | inl missing ↦ absurd (ground arith)
  | inr (a, held) ↦ IsAssured-inv env now u s a held h
]

-- A check that passes leaves the session alone, and the session holds a fresh assurance for an active
-- staff user; a check that fails removes the assurance.
pub is_admin_mfa_verified-cases :
    (env : Env) (now : ℕ) (u : AdminUser) (s : Session)
    → ((is_admin_mfa_verified env now (some u) s).0 ≡ true)
        × ((is_admin_mfa_verified env now (some u) s).1 ≡ s)
        × IsAssured env now u s
      ⊎ ((is_admin_mfa_verified env now (some u) s).0 ≡ false)
        × ((is_admin_mfa_verified env now (some u) s).1.assurance ≡ none)
unfolding is_admin_mfa_verified
is_admin_mfa_verified-cases env now u s = elim (Bool-cases (verified_as env now (some u) s)) [
  | inl fits ↦ inl (rw fits, rw fits, verified_inv env now u s fits)
  | inr fails ↦ inr (rw fails, rw fails)
]

pub verified-IsAssured :
    (env : Env) (now : ℕ) (u : AdminUser) (s : Session)
    → (is_admin_mfa_verified env now (some u) s).0 ≡ true
    → IsAssured env now u s
verified-IsAssured env now u s h = elim (is_admin_mfa_verified-cases env now u s) [
  | inl (passed, same, a) ↦ a
  | inr (failed, gone) ↦ cc
]

-- A login that completes leaves the session that it makes for the pending user.
pub complete_admin_login-session :
    (env : Env) (now : ℕ) (p : PendingAdminLogin) (a : Authenticator) (method next : String)
    (rotated : Bool) (s : Session)
    → (complete_admin_login env now p a method rotated s).0 ≡ ok next
    → (complete_admin_login env now p a method rotated s).1
      ≡ assured_session env now p.user method s
unfolding complete_admin_login
complete_admin_login-session env now p a method next rotated s done = ground arith

-- A login that completes lets the same active staff user pass the check from then until the assurance
-- expires, and no longer; a user with another key never passes on it.
pub complete_admin_login-verified :
    (env : Env) (now later : ℕ) (p : PendingAdminLogin) (a : Authenticator) (method next : String)
    (rotated : Bool) (s : Session) (u : AdminUser)
    → (complete_admin_login env now p a method rotated s).0 ≡ ok next
    → member method ("totp" ∷ "recovery_code" ∷ "webauthn" ∷ []) ≡ true
    → u.is_authenticated ≡ true
    → u.is_active ≡ true
    → u.is_staff ≡ true
    → now ≤ later
    → (is_admin_mfa_verified env later
        (some u)
        (complete_admin_login env now p a method rotated s).1).0
      ≡ (decimal p.user.pk == decimal u.pk
          && leb later (now + positive_setting env.assurance_ttl 28800))
unfolding is_admin_mfa_verified
complete_admin_login-verified env now later p a method next rotated s u done known auth active staff
      le =
    rw (complete_admin_login-session env now p a method next rotated s done) (ground arith)
