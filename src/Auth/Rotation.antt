-- ===== src/Auth/Rotation.antt =====
-- A refresh token is used once.

use jou_tak_web.Prelude.{
  ℕ, String, ◌≡◌, ◌≢◌, refl, sym, ap, ◌∙◌, subst, Bool, true, false, ◌||◌, Option, none, some, List,
  [], ◌∷◌, ◌==◌, any, find, nat_eq, arith, eq_iff, find_sound, if-cases, some-injective,
}
use jou_tak_web.Sessions.Model.{SessionToken, OutstandingToken, Store, Request, ok}
use jou_tak_web.Sessions.Revoke.{
  Effects, revoke_session_key, add_token, has_jti, blacklist_session_tokens,
}
use jou_tak_web.Sessions.Revoke.Single.{tokens-revoke_session_key}
use jou_tak_web.Auth.{
  Account, Claims, Tokens, Pair, bind-ok, ok-injective, is_open_jti, text_or, refresh_pair, rotate,
  logout_current, issue_pair_for_session, bind_token, session_row, logout_key,
}
use jou_tak_web.Auth.Outcome.{refresh_pair-IsRefreshed}

-- The constraint of the table: a token has one row.
abbrev pub IsUniqueJti : List SessionToken → Type 0
IsUniqueJti [] = Unit
IsUniqueJti (t ∷ rows) =
    (any (λ (s : SessionToken). s.refresh_jti == t.refresh_jti) rows ≡ false) × IsUniqueJti rows

-- What a token says does not depend on when it is read.
pub record IsTokens (lib : Tokens) : Type 0 where
  pub same_claims :
      (token : String) (black later : List OutstandingToken) (c d : Claims)
      → lib.accepts token black ≡ some c
      → lib.accepts token later ≡ some d
      → c ≡ d

module _ (user : ℕ) (old : String) where
  no-open :
      (t : SessionToken) (rows : List SessionToken)
      → is_open_jti user old t ≡ true
      → any (λ (s : SessionToken). s.refresh_jti == t.refresh_jti) rows ≡ false
      → any (is_open_jti user old) rows ≡ false
  no-open t [] opened unique = refl
  no-open t (s ∷ rows) opened unique =
      let same : t.refresh_jti ≡ old = (eq_iff t.refresh_jti old).0 (ground (arith, opened)) in
      let here =
        subst
          (λ j.
            (s.refresh_jti == j || any (λ (r : SessionToken). r.refresh_jti == t.refresh_jti) rows)
            ≡ false)
          same unique in
      ground (arith, here, no-open t rows opened (ground (arith, unique)))

  rotate-closes :
      (new : String) (rows : List SessionToken)
      → (new == old) ≡ false
      → IsUniqueJti rows
      → any (is_open_jti user old) (rotate user old new rows) ≡ false
  unfolding rotate
  rotate-closes new [] differ unique = refl
  rotate-closes new (t ∷ rows) differ unique =
      if-cases (λ kept. any (is_open_jti user old) kept ≡ false) (is_open_jti user old t)
        (record t { refresh_jti = new } ∷ rows) (t ∷ rotate user old new rows)
        (λ opened. ground (arith, differ, no-open t rows opened unique.0))
        (λ shut. ground (arith, shut, rotate-closes new rows differ unique.1))

  rotate-keeps :
      (owner : ℕ) (other new : String) (rows : List SessionToken)
      → (new == old) ≡ false
      → any (is_open_jti user old) rows ≡ false
      → any (is_open_jti user old) (rotate owner other new rows) ≡ false
  unfolding rotate
  rotate-keeps owner other new [] differ shut = refl
  rotate-keeps owner other new (t ∷ rows) differ shut =
      if-cases (λ kept. any (is_open_jti user old) kept ≡ false) (is_open_jti owner other t)
        (record t { refresh_jti = new } ∷ rows) (t ∷ rotate owner other new rows)
        (λ opened. ground (arith, differ, shut))
        (λ closed. ground (arith, shut, rotate-keeps owner other new rows differ))

  blacklist-shut :
      (owner : ℕ) (key : String) (now : ℕ) (outstanding : List OutstandingToken)
      (rows : List SessionToken) (black : List OutstandingToken)
      → any (is_open_jti user old) rows ≡ false
      → any (is_open_jti user old) (blacklist_session_tokens owner key now outstanding rows black).0
        ≡ false
  unfolding blacklist_session_tokens
  blacklist-shut owner key now outstanding [] black shut = refl
  blacklist-shut owner key now outstanding (t ∷ rows) black shut = ground (
    arith,
    shut,
    blacklist-shut owner key now outstanding rows black,
    blacklist-shut owner key now outstanding rows
        (add_token (find (has_jti owner t.refresh_jti) outstanding) black),
  )

  bind_token-shut :
      (owner : ℕ) (key new : String) (rows : List SessionToken)
      → (new == old) ≡ false
      → any (is_open_jti user old) rows ≡ false
      → any (is_open_jti user old) (bind_token owner key new rows) ≡ false
  bind_token-shut owner key new rows differ shut = ground (arith, differ, shut)

-- What may happen to the tables after a refresh: other refreshes, new pairs, logouts and revocations, by any
-- users and requests; a new token is never the old one.
pub data Later (hmac : String → String) (lib : Tokens) (fx : Effects) (old : String) (st : Store)
    : Store → Type 0 where
  here : Later hmac lib fx old st st
  refreshes :
      {middle : Store} (later : Store)
      → Later hmac lib fx old st middle
      → (users : List Account) (request : Request) (refresh cookie : String) (new given : Pair)
      → (new.jti == old) ≡ false
      → refresh_pair hmac lib users request refresh cookie new middle ≡ ok (given, later)
      → Later hmac lib fx old st later
  issues :
      {middle : Store} (later : Store)
      → Later hmac lib fx old st middle
      → (request : Request) (user : Option ℕ) (new given : Pair) (now : ℕ)
      → (new.jti == old) ≡ false
      → issue_pair_for_session hmac lib request user new now middle ≡ ok (given, later)
      → Later hmac lib fx old st later
  logs_out :
      {middle : Store}
      → Later hmac lib fx old st middle
      → (request : Request) (user : Option ℕ) (now : ℕ)
      → Later hmac lib fx old st (logout_current hmac fx request user now middle).1
  revokes :
      {middle : Store}
      → Later hmac lib fx old st middle
      → (request : Request) (user : ℕ) (key reason : String) (now : ℕ)
      → Later hmac lib fx old st (revoke_session_key fx request user key reason now middle).1

module _ (hmac : String → String) (lib : Tokens) (fx : Effects) (user : ℕ) (old : String) where
  abbrev IsShut : Store → Type 0
  IsShut st = any (is_open_jti user old) st.tokens ≡ false

  logout_current-IsShut :
      (request : Request) (who : Option ℕ) (now : ℕ) (st : Store)
      → IsShut st
      → IsShut (logout_current hmac fx request who now st).1
  unfolding logout_current
  logout_current-IsShut request none now st shut = shut
  logout_current-IsShut request (some u) now st shut = ground (
    arith,
    shut,
    blacklist-shut user old u (logout_key hmac u request st.metas) now st.outstanding st.tokens
        st.blacklisted shut,
  )

  issued-IsShut :
      (request : Request) (who : Option ℕ) (new given : Pair) (now : ℕ) (st later : Store)
      → (new.jti == old) ≡ false
      → issue_pair_for_session hmac lib request who new now st ≡ ok (given, later)
      → IsShut st
      → IsShut later
  unfolding issue_pair_for_session
  issued-IsShut request none new given now st later differ h shut = cc
  issued-IsShut request (some u) new given now st later differ h shut =
      let row = bind-ok (session_row hmac u request now st.metas) _ _ h in
      let made = ap (λ p. p.1.tokens) (ok-injective _ _ row.2) in
      subst (λ tokens. any (is_open_jti user old) tokens ≡ false) made
        (bind_token-shut user old u row.0.0.session_key new.jti st.tokens differ shut)

  Later-IsShut :
      {st : Store} (later : Store) → Later hmac lib fx old st later → IsShut st → IsShut later
  Later-IsShut _ here shut = shut
  Later-IsShut _ (refreshes {middle} later run users request refresh cookie new given differ h)
        shut =
      let d =
        refresh_pair-IsRefreshed hmac lib users request refresh cookie new middle given later h in
      subst IsShut (sym d.later_eq) (
        rotate-keeps user old d.user.pk d.claims.jti new.jti middle.tokens differ
          (Later-IsShut middle run shut))
  Later-IsShut _ (issues {middle} later run request who new given now differ h) shut =
      issued-IsShut request who new given now middle later differ h (Later-IsShut middle run shut)
  Later-IsShut _ (logs_out {middle} run request who now) shut =
      logout_current-IsShut request who now middle (Later-IsShut middle run shut)
  Later-IsShut _ (revokes {middle} run request owner key reason now) shut =
      subst (λ tokens. any (is_open_jti user old) tokens ≡ false)
        (sym (tokens-revoke_session_key owner key reason now fx request middle))
        (blacklist-shut user old owner key now middle.outstanding middle.tokens middle.blacklisted
          (Later-IsShut middle run shut))

same_user : (n m k : ℕ) → nat_eq n k ≡ true → nat_eq m k ≡ true → n ≡ m
same_user n m k l r = ground arith

found-open :
    (p : SessionToken → Bool) (rows : List SessionToken) (t : SessionToken)
    → find p rows ≡ some t
    → any p rows ≡ true
found-open p [] t h = cc
found-open p (row ∷ rows) t h = ground (arith, found-open p rows t)

-- A refresh token that was exchanged for a new pair is never accepted again, whatever refreshes, new pairs,
-- logouts and revocations come in between and whatever request brings it.
pub refresh_pair-once :
    (hmac : String → String) (lib : Tokens) (fx : Effects) (users users_then : List Account)
    (request request_then : Request) (token cookie : String) (new given new_then given_then : Pair)
    (claims : Claims) (st st_next st_later st_end : Store)
    → IsTokens lib
    → IsUniqueJti st.tokens
    → lib.accepts (text_or token cookie) st.blacklisted ≡ some claims
    → (new.jti == claims.jti) ≡ false
    → refresh_pair hmac lib users request token cookie new st ≡ ok (given, st_next)
    → Later hmac lib fx claims.jti st_next st_later
    → refresh_pair hmac lib users_then request_then token cookie new_then st_later
      ≢ ok (given_then, st_end)
refresh_pair-once hmac lib fx users users_then request request_then token cookie new given new_then
      given_then claims st st_next st_later st_end laws unique said differ first run again =
    let one =
      refresh_pair-IsRefreshed hmac lib users request token cookie new st given st_next first in
    let two =
      refresh_pair-IsRefreshed hmac lib users_then request_then token cookie new_then st_later
        given_then st_end again in
    let claims_one : one.claims ≡ claims = some-injective _ _ (sym one.accepted ∙ said) in
    let claims_two : two.claims ≡ claims =
      laws.same_claims (text_or token cookie) st_later.blacklisted st.blacklisted two.claims claims
        two.accepted said in
    let owner_one =
      find_sound (λ (u : Account). nat_eq u.pk one.claims.user_id) users one.user one.known in
    let owner_two =
      find_sound (λ (u : Account). nat_eq u.pk two.claims.user_id) users_then two.user two.known in
    let owners =
      same_user two.user.pk one.user.pk claims.user_id
        (subst (λ c. nat_eq two.user.pk c.user_id ≡ true) claims_two owner_two)
        (subst (λ c. nat_eq one.user.pk c.user_id ≡ true) claims_one owner_one) in
    let shut =
      subst (λ s. any (is_open_jti one.user.pk claims.jti) s.tokens ≡ false) (sym one.later_eq)
        (subst
          (λ c.
            any (is_open_jti one.user.pk claims.jti) (rotate one.user.pk c.jti new.jti st.tokens)
            ≡ false)
          (sym claims_one)
          (rotate-closes one.user.pk claims.jti new.jti st.tokens differ unique)) in
    let still = Later-IsShut hmac lib fx one.user.pk claims.jti st_later run shut in
    let open_one =
      found-open (is_open_jti two.user.pk two.claims.jti) st_later.tokens two.mapping
        two.open_mapping in
    let opened =
      subst (λ c. any (is_open_jti two.user.pk c.jti) st_later.tokens ≡ true) claims_two open_one in
    let mine = subst (λ u. any (is_open_jti u claims.jti) st_later.tokens ≡ true) owners opened in
    grind (arith, mine, still)
