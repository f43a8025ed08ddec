-- ===== src/Auth.antt =====
-- backend/accounts/services/auth.py: the pairs of tokens of a session, their rotation, and the logout. The tables
-- are those of the session service; the expiry of a token's row, which only the clean-up reads, is left out. The
-- tokens are ninja_jwt's: reading one and recording a new one are parameters.
pub mod Outcome
pub mod Rotation
mod Tests
use Prim.Native.String
use jou_tak_web.Prelude.{
  ℕ, String, Bool, true, false, ◌&&◌, ◌||◌, not, Option, none, some, List, [], ◌∷◌, ◌++◌, ◌≡◌, refl,
  ◌==◌, any, find, nat_eq, is_some, or_else, arith, if◌then◌else◌,
}
use jou_tak_web.Values.{non_empty}
use jou_tak_web.Sessions.Model.{
  Meta, SessionToken, OutstandingToken, Store, Request, HttpError, Result, ok, raised,
  session_token_digest, is_meta, has_digest, is_revoked,
}
use jou_tak_web.Sessions.Revoke.{
  Effects, is_open_token, add_token, blacklist_session_tokens, logged_out,
}

pub record Account : Type 0 where
  pub pk : ℕ
  pub is_active : Bool

pub record Claims : Type 0 where
  pub jti : String
  pub user_id : ℕ

-- `RefreshToken(text)` and `check_blacklist`, and the rows after `RefreshToken.for_user`.
pub record Tokens : Type 0 where
  pub accepts : String → List OutstandingToken → Option Claims
  pub remember : ℕ → String → List OutstandingToken → List OutstandingToken

-- A new token, by its texts.
pub record Pair : Type 0 where
  pub jti : String
  pub access : String
  pub refresh : String

infixl 5 ◌>>=◌ ◌>>◌
abbrev pub ◌>>=◌ {ℓ κ} : {A : Type ℓ} {B : Type κ} → Result A → (A → Result B) → Result B
ok a >>= k = k a
raised e >>= k = raised e

abbrev pub ◌>>◌ {ℓ} : {B : Type ℓ} → Result (Unit {0}) → Result B → Result B
m >> k = m >>= λ _. k

abbrev pub unauthorized : String → HttpError
unauthorized detail = record { status = 401; detail = detail }

-- A row that would break a unique constraint is an error of the database.
abbrev pub integrity_error : HttpError
integrity_error = record { status = 500; detail = "IntegrityError" }

abbrev pub require : Bool → String → Result (Unit {0})
require true detail = ok tt
require false detail = raised (unauthorized detail)

abbrev pub some_or : {A : Type 0} → String → Option A → Result A
some_or detail none = raised (unauthorized detail)
some_or detail (some a) = ok a

pub bind-ok {ℓ κ} :
    {A : Type ℓ} {B : Type κ} (m : Result A) (k : A → Result B) (b : B)
    → (m >>= k) ≡ ok b
    → (a : A) × (m ≡ ok a) × (k a ≡ ok b)
bind-ok (ok a) k b h = (a, refl, h)
bind-ok (raised e) k b h = cc

pub require-ok {κ} :
    {B : Type κ} (test : Bool) (detail : String) (k : Result B) (b : B)
    → (require test detail >> k) ≡ ok b
    → (test ≡ true) × (k ≡ ok b)
require-ok true detail k b h = (refl, h)
require-ok false detail k b h = cc

pub some_or-ok :
    {A : Type 0} (detail : String) (o : Option A) (a : A) → some_or detail o ≡ ok a → o ≡ some a
some_or-ok detail none a h = cc
some_or-ok detail (some b) a h = grind arith

pub ok-injective {ℓ} : {A : Type ℓ} (a b : A) → Result.ok a ≡ ok b → a ≡ b
ok-injective a b h = grind arith

abbrev pub is_open_jti : ℕ → String → SessionToken → Bool
is_open_jti user jti t = nat_eq t.user user && t.refresh_jti == jti && not (is_some t.revoked_at)

-- `mapping.save()` with the new token, on the row that the query has found first.
unfoldable pub rotate : ℕ → String → String → List SessionToken → List SessionToken
rotate user old new [] = []
rotate user old new (t ∷ rows) =
    let rest = rotate user old new rows in
    if is_open_jti user old t then record t { refresh_jti = new } ∷ rows else t ∷ rest

abbrev pub of_digest : ℕ → String → Meta → Bool
of_digest user digest m = nat_eq m.user user && has_digest digest m

abbrev pub with_jti : String → OutstandingToken → Bool
with_jti jti t = t.jti == jti

-- `payload.refresh or get_refresh_cookie(request)`
abbrev pub text_or : String → String → String
text_or first second = if non_empty first then first else second

-- The rows that a rotation changes.
abbrev pub rotated : Tokens → ℕ → String → String → Store → Store
rotated lib user old new st =
    let outstanding = lib.remember user new st.outstanding in
    record st {
      outstanding = outstanding;
      blacklisted = add_token (find (with_jti old) outstanding) st.blacklisted;
      tokens = rotate user old new st.tokens;
    }

-- A request's session row: by the digest of its token, else by its key.
abbrev meta_by_digest : ℕ → String → List Meta → Option Meta
meta_by_digest user digest metas =
    if non_empty digest then find (of_digest user digest) metas else none

abbrev meta_by_key : ℕ → String → List Meta → Option Meta
meta_by_key user key metas = if non_empty key then find (is_meta user key) metas else none

abbrev pub request_meta : ℕ → String → String → List Meta → Option Meta
request_meta user digest key metas =
    or_else (meta_by_digest user digest metas) (meta_by_key user key metas)

abbrev optional : String → Option String
optional s = if non_empty s then some s else none

abbrev pub has_no_digest : Meta → Bool
has_no_digest m = elim m.session_token_digest [ none ↦ true | some d ↦ not (non_empty d) ]

abbrev pub fresh_meta : ℕ → String → String → ℕ → Meta
fresh_meta user key digest now = record {
  user = user;
  session_key = key;
  session_token_digest = optional digest;
  first_seen = now;
  last_seen = none;
  user_agent = "";
  ip = none;
  revoked_at = none;
  revoked_reason = none;
}

abbrev reason_or_logout : Option String → Option String
reason_or_logout none = some "logout"
reason_or_logout (some r) = if non_empty r then some r else some "logout"

abbrev with_digest : String → Meta → Meta
with_digest digest m =
    if non_empty digest && has_no_digest m
    then record m { session_token_digest = some digest }
    else m

abbrev pub logged_out_meta : String → ℕ → Meta → Meta
logged_out_meta digest now m = record (with_digest digest m) {
  revoked_at = or_else m.revoked_at (some now);
  revoked_reason = reason_or_logout m.revoked_reason;
}

-- `get_or_create` of the session's row, and the updates of a logout on it.
unfoldable pub logout_meta : ℕ → String → String → ℕ → List Meta → List Meta
logout_meta user key digest now [] =
    logged_out_meta digest now (fresh_meta user key digest now) ∷ []
logout_meta user key digest now (m ∷ rows) =
    let rest = logout_meta user key digest now rows in
    if is_meta user key m then logged_out_meta digest now m ∷ rows else m ∷ rest

abbrev key_of : Option Meta → String
key_of none = ""
key_of (some m) = m.session_key

abbrev pub bind_token : ℕ → String → String → List SessionToken → List SessionToken
bind_token user key jti tokens =
    let same =
      any (λ (t : SessionToken). nat_eq t.user user && t.session_key == key && t.refresh_jti == jti)
        tokens in
    if same
    then tokens
    else record { user = user; session_key = key; refresh_jti = jti; revoked_at = none } ∷ tokens

module _ (hmac : String → String) where
  -- The key of the session that a logout ends.
  abbrev pub logout_key : ℕ → Request → List Meta → String
  logout_key user request metas = text_or request.session_key (
      key_of (
        request_meta user (session_token_digest hmac request.header_token) request.session_key
          metas))

  abbrev closed : ℕ → String → String → ℕ → Store → Store
  closed user key digest now st =
      let (tokens, black) =
        blacklist_session_tokens user key now st.outstanding st.tokens st.blacklisted in
      record st {
        metas = logout_meta user key digest now st.metas;
        tokens = tokens;
        blacklisted = black;
      }

  -- `logout_current`, of the user if there is an authenticated one.
  unfoldable pub logout_current : Effects → Request → Option ℕ → ℕ → Store → Request × Store
  unfolding logout_meta blacklist_session_tokens session_token_digest
  logout_current fx request none now st = logged_out fx request st
  logout_current fx request (some user) now st =
      let key = logout_key user request st.metas in
      let digest = session_token_digest hmac request.header_token in
      logged_out fx request (if non_empty key then closed user key digest now st else st)

  -- `refresh_pair`, with the new pair and the rows after it; a request that is refused changes nothing.
  unfoldable pub refresh_pair :
      Tokens
      → List Account
      → Request
      → (refresh cookie : String) → Pair
      → Store
      → Result (Pair × Store)
  unfolding session_token_digest rotate
  refresh_pair lib users request refresh cookie new st = do
    require (non_empty (text_or refresh cookie)) "refresh required"
    claims ← some_or "invalid refresh" (lib.accepts (text_or refresh cookie) st.blacklisted)
    user ← some_or "invalid user" (find (λ (u : Account). nat_eq u.pk claims.user_id) users)
    require user.is_active "invalid user"
    mapping ← some_or "invalid refresh" (find (is_open_jti user.pk claims.jti) st.tokens)
    require (non_empty request.header_token) "session token required for refresh"
    session ←
        some_or "invalid session token"
          (find (of_digest user.pk (session_token_digest hmac request.header_token)) st.metas)
    require (non_empty session.session_key) "invalid session token"
    require (mapping.session_key == session.session_key) "invalid refresh"
    require (not (is_revoked (find (is_meta user.pk mapping.session_key) st.metas)))
        "invalid refresh"
    ok (new, rotated lib user.pk claims.jti new.jti st)

  -- The row that a pair is bound to after its updates, where its new key is not another row's.
  abbrev bound_meta : String → String → Meta → Meta
  bound_meta digest key m =
      let marked = with_digest digest m in
      if non_empty key && not (marked.session_key == key)
      then record marked { session_key = key }
      else marked

  abbrev put_meta : Meta → Meta → List Meta → List Meta
  put_meta old new [] = []
  put_meta old new (m ∷ rows) =
      let rest = m ∷ put_meta old new rows in
      if is_meta old.user old.session_key m then new ∷ rows else rest

  abbrev moved_meta : Meta → Meta → List Meta → Result (Meta × List Meta)
  moved_meta old new metas =
      if not (old.session_key == new.session_key)
        && is_some (find (is_meta new.user new.session_key) metas)
      then raised integrity_error
      else ok (new, put_meta old new metas)

  abbrev pub session_row : ℕ → Request → ℕ → List Meta → Result (Meta × List Meta)
  session_row user request now metas =
      let digest = session_token_digest hmac request.header_token in
      elim (request_meta user digest request.session_key metas) [
        | some m ↦ moved_meta m (bound_meta digest request.session_key m) metas
        | none ↦
            (require (non_empty (text_or request.session_key request.header_token))
                "session binding missing"
              >> ok (
                fresh_meta user (text_or request.session_key request.header_token) digest now,
                fresh_meta user (text_or request.session_key request.header_token) digest now
                    ∷ metas,
              ))
      ]

  -- `issue_pair_for_session`
  unfoldable pub issue_pair_for_session :
      Tokens → Request → Option ℕ → Pair → ℕ → Store → Result (Pair × Store)
  unfolding session_token_digest
  issue_pair_for_session lib request none new now st = raised (unauthorized "Not authenticated")
  issue_pair_for_session lib request (some user) new now st = do
    row ← session_row user request now st.metas
    ok (
      new,
      record st {
        metas = row.1;
        outstanding = lib.remember user new.jti st.outstanding;
        tokens = bind_token user row.0.session_key new.jti st.tokens;
      },
    )
