-- ===== src/Admin/Mfa/Protocol.antt =====
-- The admin login as a protocol: every operation on the session as a step, with a log of the logins
-- that completed.
use mathlib.Core.List.{Memᴰ}
use jou_tak_web.Prelude.{
  ℕ, ◌+◌, ◌≤◌, String, ◌≡◌, refl, Bool, true, ◌⊎◌, inl, inr, Option, none, some, List, ◌∷◌, arith,
  Bool-cases,
}
use jou_tak_web.Prelude.Text.{decimal}
use jou_tak_web.Values.{Value, int, str}
use jou_tak_web.Admin.Mfa.{
  Env, Session, AdminUser, Assurance, Authenticator, PendingAdminLogin, MfaError, ok, failed,
  positive_setting, start_pending_admin_login, get_pending_admin_login, is_admin_mfa_verified,
  admin_request_has_mfa_assurance, complete_admin_login, clear_admin_mfa_state, verified_as,
  assured_session,
}
use jou_tak_web.Admin.Mfa.Verified.{verified-IsAssured, complete_admin_login-session}

-- The session, and the user key and time of each login that completed in it.
pub record World : Type 0 where
  pub session : Session
  pub log : List (ℕ × ℕ)

pub data Step (env : Env) (w u : World) : Type 0 where
  start :
      (now : ℕ) (user : AdminUser) (next : Value) (flow : String)
      → u ≡ record w { session = (start_pending_admin_login env now user next flow w.session).1 }
      → Step env w u
  resume :
      (now : ℕ)
      → u ≡ record w { session = (get_pending_admin_login env now w.session).1 }
      → Step env w u
  check :
      (now : ℕ) (user : Option AdminUser)
      → u ≡ record w { session = (is_admin_mfa_verified env now user w.session).1 }
      → Step env w u
  assure :
      (now : ℕ) (user : Option AdminUser)
      → u ≡ record w { session = (admin_request_has_mfa_assurance env now user w.session).1 }
      → Step env w u
  reject :
      (now : ℕ) (p : PendingAdminLogin) (a : Authenticator) (method : String) (rotated : Bool)
      (e : MfaError)
      → (complete_admin_login env now p a method rotated w.session).0 ≡ failed e
      → u ≡ record w { session = (complete_admin_login env now p a method rotated w.session).1 }
      → Step env w u
  complete :
      (now : ℕ) (p : PendingAdminLogin) (a : Authenticator) (method : String) (rotated : Bool)
      (next : String)
      → (complete_admin_login env now p a method rotated w.session).0 ≡ ok next
      → u ≡ record {
        session = (complete_admin_login env now p a method rotated w.session).1;
        log = (p.user.pk, now) ∷ w.log;
      }
      → Step env w u

pub data Reach (env : Env) (w : World) : World → Type 0 where
  stay : Reach env w w
  after : {u v : World} → Reach env w u → Step env u v → Reach env w v

-- The assurance in the session was given by a login of the log.
pub record IsLogged (s : Session) (log : List (ℕ × ℕ)) : Type 0 where
  pub logged :
      (a : Assurance)
      → s.assurance ≡ some a
      → (pk : ℕ) × (t : ℕ) × Memᴰ (pk, t) log
        × (a.user_pk ≡ str (decimal pk))
        × (a.verified_at ≡ int t)

IsLogged-none : (s : Session) (log : List (ℕ × ℕ)) → s.assurance ≡ none → IsLogged s log
IsLogged-none s log e = record { logged = λ a h. cc }

IsLogged-same :
    (s t : Session) (log : List (ℕ × ℕ))
    → t.assurance ≡ s.assurance
    → IsLogged s log
    → IsLogged t log
IsLogged-same s t log e h = record { logged = λ a held. h.logged a (cc) }

-- `cycle_key` renames the session and keeps its entries.
module _ (env : Env)
    (cycle_key_keeps : (s : Session) → (env.cycle_key s).assurance ≡ s.assurance) where
  start-none :
      (now : ℕ) (user : AdminUser) (next : Value) (flow : String) (s : Session)
      → (start_pending_admin_login env now user next flow s).1.assurance ≡ none
  unfolding start_pending_admin_login
  start-none now user next flow s = ground (arith, cycle_key_keeps (clear_admin_mfa_state s))

  resume-same :
      (now : ℕ) (s : Session) → (get_pending_admin_login env now s).1.assurance ≡ s.assurance
  unfolding get_pending_admin_login
  resume-same now s = ground arith

  check-or_none :
      (now : ℕ) (user : Option AdminUser) (s : Session)
      → ((is_admin_mfa_verified env now user s).1.assurance ≡ none)
        ⊎ ((is_admin_mfa_verified env now user s).1.assurance ≡ s.assurance)
  unfolding is_admin_mfa_verified
  check-or_none now user s = elim (Bool-cases (verified_as env now user s)) [
    | inl fits ↦ inr (rw fits)
    | inr fails ↦ inl (rw fails)
  ]

  assure-or_none :
      (now : ℕ) (user : Option AdminUser) (s : Session)
      → ((admin_request_has_mfa_assurance env now user s).1.assurance ≡ none)
        ⊎ ((admin_request_has_mfa_assurance env now user s).1.assurance ≡ s.assurance)
  unfolding admin_request_has_mfa_assurance
  assure-or_none now user s = ground arith

  reject-or_none :
      (now : ℕ) (p : PendingAdminLogin) (a : Authenticator) (method : String) (rotated : Bool)
      (s : Session) (e : MfaError)
      → (complete_admin_login env now p a method rotated s).0 ≡ failed e
      → ((complete_admin_login env now p a method rotated s).1.assurance ≡ none)
        ⊎ ((complete_admin_login env now p a method rotated s).1.assurance ≡ s.assurance)
  unfolding complete_admin_login
  reject-or_none now p a method rotated s e h = ground arith

  Or-IsLogged :
      (s t : Session) (log : List (ℕ × ℕ))
      → (t.assurance ≡ none) ⊎ (t.assurance ≡ s.assurance)
      → IsLogged s log
      → IsLogged t log
  Or-IsLogged s t log (inl gone) h = IsLogged-none t log gone
  Or-IsLogged s t log (inr same) h = IsLogged-same s t log same h

  complete-IsLogged :
      (now : ℕ) (p : PendingAdminLogin) (method : String) (s : Session) (log : List (ℕ × ℕ))
      → IsLogged (assured_session env now p.user method s) ((p.user.pk, now) ∷ log)
  complete-IsLogged now p method s log = record {
    logged = λ a h. (p.user.pk, now, Memᴰ.head refl, ground arith, ground arith);
  }

  abbrev Logged : World → Type 0
  Logged w = IsLogged w.session w.log

  Step-IsLogged : (w u : World) → Step env w u → Logged w → Logged u
  Step-IsLogged w u (start now user to flow e) h =
      rw e (IsLogged-none _ w.log (start-none now user to flow w.session))
  Step-IsLogged w u (resume now e) h =
      rw e (IsLogged-same w.session _ w.log (resume-same now w.session) h)
  Step-IsLogged w u (check now user e) h =
      rw e (Or-IsLogged w.session _ w.log (check-or_none now user w.session) h)
  Step-IsLogged w u (assure now user e) h =
      rw e (Or-IsLogged w.session _ w.log (assure-or_none now user w.session) h)
  Step-IsLogged w u (reject now p a method rotated x refused e) h =
      rw e (
        Or-IsLogged w.session _ w.log (reject-or_none now p a method rotated w.session x refused) h)
  Step-IsLogged w u (complete now p a method rotated to done e) h =
      rw (e, complete_admin_login-session env now p a method to rotated w.session done)
        (complete-IsLogged now p method w.session w.log)

  Reach-IsLogged : (w u : World) → Reach env w u → Logged w → Logged u
  Reach-IsLogged w u stay h = h
  Reach-IsLogged w u (after {u = v} r st) h = Step-IsLogged v u st (Reach-IsLogged w v r h)

  -- However the operations of the flow are interleaved from a session without an assurance: if the check
  -- passes for a user, a login for the same user key completed before, within the assurance's lifetime.
  -- That `cycle_key` keeps the session's assurance entry is a hypothesis.
  pub verified-completed :
      (w u : World) (now : ℕ) (user : AdminUser)
      → w.session.assurance ≡ none
      → Reach env w u
      → (is_admin_mfa_verified env now (some user) u.session).0 ≡ true
      → (pk : ℕ) × (t : ℕ) × Memᴰ (pk, t) u.log
        × (decimal pk ≡ decimal user.pk)
        × (t ≤ now)
        × (now ≤ t + positive_setting env.assurance_ttl 28800)
  verified-completed w u now user fresh r v =
      let a = verified-IsAssured env now user u.session v in
      let (pk, t, listed, same_pk, same_t) =
        (Reach-IsLogged w u r (IsLogged-none w.session w.log fresh)).logged a.state a.held in
      let same_pk' : decimal pk ≡ decimal user.pk = cc (same_pk, a.for_user) in
      let same_t' : a.at ≡ t = cc (same_t, a.given) in
      (
        pk,
        t,
        listed,
        same_pk',
        omega (arith, same_t', a.not_later),
        omega (arith, same_t', a.fresh),
      )
