-- ===== src/Auth/Outcome.antt =====
-- What a refresh that succeeds has found, and that a session that was logged out gives no more pairs.

use jou_tak_web.Prelude.{
  ℕ, String, ◌≡◌, refl, sym, ap, ◌∙◌, subst, true, false, ◌&&◌, not, some, List, [], ◌∷◌, ◌==◌,
  find, nat_eq, arith, eq_iff, Bool-cases, inl, inr, if-cases,
}
use jou_tak_web.Values.{non_empty}
use jou_tak_web.Sessions.Model.{
  Meta, SessionToken, Store, Request, ok, session_token_digest, is_meta, is_revoked,
}
use jou_tak_web.Sessions.Revoke.{Effects}
use jou_tak_web.Auth.{
  Account, Claims, Tokens, Pair, bind-ok, require-ok, some_or-ok, ok-injective, is_open_jti,
  of_digest, text_or, some_or, refresh_pair, rotated, logout_current, logout_meta, logged_out_meta,
  fresh_meta, logout_key,
}

module _ (hmac : String → String) (lib : Tokens) (users : List Account) (request : Request)
    (refresh cookie : String) (new : Pair) (st : Store) where
  -- The user, the row of the token and the session's row of a refresh that succeeds.
  pub record IsRefreshed (given : Pair) (later : Store) : Type 0 where
    pub claims : Claims
    pub accepted : lib.accepts (text_or refresh cookie) st.blacklisted ≡ some claims
    pub user : Account
    pub known : find (λ (u : Account). nat_eq u.pk claims.user_id) users ≡ some user
    pub active : user.is_active ≡ true
    pub mapping : SessionToken
    pub open_mapping : find (is_open_jti user.pk claims.jti) st.tokens ≡ some mapping
    pub session : Meta
    pub own_session :
        find (of_digest user.pk (session_token_digest hmac request.header_token)) st.metas
        ≡ some session
    pub same_key : (mapping.session_key == session.session_key) ≡ true
    pub not_revoked : is_revoked (find (is_meta user.pk mapping.session_key) st.metas) ≡ false
    pub given_eq : given ≡ new
    pub later_eq : later ≡ rotated lib user.pk claims.jti new.jti st

  -- A refresh succeeds only with a token that is accepted and not blacklisted, of an active user, whose row is
  -- open and belongs to the session of the request's own token, which is not revoked; it gives the new pair and
  -- changes the rows by the rotation.
  pub refresh_pair-IsRefreshed :
      (given : Pair) (later : Store)
      → refresh_pair hmac lib users request refresh cookie new st ≡ ok (given, later)
      → IsRefreshed given later
  unfolding refresh_pair
  refresh_pair-IsRefreshed given later h =
      let filled = require-ok (non_empty (text_or refresh cookie)) "refresh required" _ _ h in
      let claims =
        bind-ok (some_or "invalid refresh" (lib.accepts (text_or refresh cookie) st.blacklisted)) _
          _ filled.1 in
      let user =
        bind-ok
          (some_or "invalid user" (find (λ (u : Account). nat_eq u.pk claims.0.user_id) users)) _ _
          claims.2 in
      let active = require-ok user.0.is_active "invalid user" _ _ user.2 in
      let mapping =
        bind-ok (some_or "invalid refresh" (find (is_open_jti user.0.pk claims.0.jti) st.tokens)) _
          _ active.1 in
      let header =
        require-ok (non_empty request.header_token) "session token required for refresh" _ _
          mapping.2 in
      let session =
        bind-ok
          (some_or "invalid session token"
            (find (of_digest user.0.pk (session_token_digest hmac request.header_token)) st.metas))
          _ _ header.1 in
      let keyed =
        require-ok (non_empty session.0.session_key) "invalid session token" _ _ session.2 in
      let same =
        require-ok (mapping.0.session_key == session.0.session_key) "invalid refresh" _ _ keyed.1 in
      let alive =
        require-ok (not (is_revoked (find (is_meta user.0.pk mapping.0.session_key) st.metas)))
          "invalid refresh" _ _ same.1 in
      let result = ok-injective _ _ alive.1 in
      record {
        claims = claims.0;
        accepted =
            some_or-ok "invalid refresh" (lib.accepts (text_or refresh cookie) st.blacklisted)
              claims.0 claims.1;
        user = user.0;
        known =
            some_or-ok "invalid user" (find (λ (u : Account). nat_eq u.pk claims.0.user_id) users)
              user.0 user.1;
        active = active.0;
        mapping = mapping.0;
        open_mapping =
            some_or-ok "invalid refresh" (find (is_open_jti user.0.pk claims.0.jti) st.tokens)
              mapping.0 mapping.1;
        session = session.0;
        own_session =
            some_or-ok "invalid session token"
              (find (of_digest user.0.pk (session_token_digest hmac request.header_token)) st.metas)
              session.0 session.1;
        same_key = same.0;
        not_revoked = ground (arith, alive.0);
        given_eq = sym (ap (λ p. p.0) result);
        later_eq = sym (ap (λ p. p.1) result);
      }

found-revoked :
    (user : ℕ) (key : String) (m : Meta) (rows : List Meta)
    → is_meta user key m ≡ true
    → is_revoked (some m) ≡ true
    → is_revoked (find (is_meta user key) (m ∷ rows)) ≡ true
found-revoked user key m rows own revoked = ground (arith, own, revoked)

-- A session whose row is revoked is none whose row is not.
other_session :
    (user : ℕ) (key : String) (owner : ℕ) (own : String) (rows : List Meta)
    → is_revoked (find (is_meta user key) rows) ≡ true
    → is_revoked (find (is_meta owner own) rows) ≡ false
    → (nat_eq owner user && own == key) ≡ false
other_session user key owner own rows revoked alive =
    elim (Bool-cases (nat_eq owner user && own == key)) [
      | inl same ↦
          let users : owner ≡ user = ground (arith, same) in
          let keys : own ≡ key = (eq_iff own key).0 (ground (arith, same)) in
          let clash =
            subst (λ k. is_revoked (find (is_meta user k) rows) ≡ false) keys
              (subst (λ u. is_revoked (find (is_meta u own) rows) ≡ false) users alive) in
          grind (arith, clash, revoked)
      | inr other ↦ other
    ]

logged_out-key :
    (user : ℕ) (key digest : String) (now : ℕ) (m : Meta)
    → is_meta user key (logged_out_meta digest now m) ≡ is_meta user key m
logged_out-key user key digest now m = ground arith

logged_out-revoked :
    (digest : String) (now : ℕ) (m : Meta) → is_revoked (some (logged_out_meta digest now m)) ≡ true
logged_out-revoked digest now m = ground arith

fresh-key :
    (user : ℕ) (key digest : String) (now : ℕ)
    → is_meta user key (fresh_meta user key digest now) ≡ true
fresh-key user key digest now = ground (arith, (eq_iff key key).1 refl)

find-logout_meta :
    (user : ℕ) (key digest : String) (now : ℕ) (rows : List Meta)
    → is_revoked (find (is_meta user key) (logout_meta user key digest now rows)) ≡ true
unfolding logout_meta
find-logout_meta user key digest now [] =
    let fresh = fresh_meta user key digest now in
    found-revoked user key (logged_out_meta digest now fresh) []
      (logged_out-key user key digest now fresh ∙ fresh-key user key digest now)
      (logged_out-revoked digest now fresh)
find-logout_meta user key digest now (m ∷ rows) =
    let out = logged_out_meta digest now m in
    if-cases (λ kept. is_revoked (find (is_meta user key) kept) ≡ true) (is_meta user key m)
      (out ∷ rows) (m ∷ logout_meta user key digest now rows)
      (λ own.
        found-revoked user key out rows (logged_out-key user key digest now m ∙ own)
          (logged_out-revoked digest now m))
      (λ other. ground (arith, other, find-logout_meta user key digest now rows))

module _ (hmac : String → String) (fx : Effects) where
  metas-logout_current :
      (request : Request) (user now : ℕ) (st : Store)
      → non_empty (logout_key hmac user request st.metas) ≡ true
      → (logout_current hmac fx request (some user) now st).1.metas
        ≡ logout_meta user
            (logout_key hmac user request st.metas)
            (session_token_digest hmac request.header_token)
            now
            st.metas
  unfolding logout_current
  metas-logout_current request user now st known = ground (arith, known)

  -- After a logout, no refresh succeeds with a token of the session that was logged out, whatever request
  -- brings it.
  pub logout_current-refused :
      (request : Request) (user now : ℕ) (st : Store) (lib : Tokens) (users : List Account)
      (next : Request) (refresh cookie : String) (new given : Pair) (later : Store)
      → non_empty (logout_key hmac user request st.metas) ≡ true
      → refresh_pair hmac lib users next refresh cookie new
          (logout_current hmac fx request (some user) now st).1
        ≡ ok (given, later)
      → (d : IsRefreshed hmac lib users next refresh cookie new
          (logout_current hmac fx request (some user) now st).1
          given
          later)
        × ((nat_eq d.user.pk user && d.mapping.session_key == logout_key hmac user request st.metas)
            ≡ false)
  logout_current-refused request user now st lib users next refresh cookie new given later known h =
      let after = (logout_current hmac fx request (some user) now st).1 in
      let d = refresh_pair-IsRefreshed hmac lib users next refresh cookie new after given later h in
      let key = logout_key hmac user request st.metas in
      let digest = session_token_digest hmac request.header_token in
      (
        d,
        other_session user key d.user.pk d.mapping.session_key after.metas
            (subst (λ rows. is_revoked (find (is_meta user key) rows) ≡ true)
              (sym (metas-logout_current request user now st known))
              (find-logout_meta user key digest now st.metas))
            d.not_revoked,
      )
