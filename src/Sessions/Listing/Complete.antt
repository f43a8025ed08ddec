-- ===== src/Sessions/Listing/Complete.antt =====
-- The listing shows exactly the keys of the sessions, and none as alive that Django does not have.
use jou_tak_web.Prelude.{
  String, ◌≡◌, refl, sym, ap, ◌∙◌, subst, Bool, true, false, ◌&&◌, ◌||◌, Option, List, [], ◌∷◌,
  ◌++◌, map, ◌==◌, any, find, is_some, member, All, arith, eq_iff, Bool-cases, inl, inr,
}
use jou_tak_web.Prelude.Assoc.{Dict, lookup, insert}
use jou_tak_web.Values.{non_empty}
use jou_tak_web.Sessions.Model.{UserSession, Meta, DjangoSession, Request}
use jou_tak_web.Sessions.Revoke.{sorted_set}
use jou_tak_web.Sessions.Revoke.Bulk.{member-sorted_set}
use jou_tak_web.Sessions.Listing.{SessionRow, is_session, compose_row, by_key, keys, merge_rows}

member-append :
    (k : String) (xs ys : List String) → member k (xs ++ ys) ≡ (member k xs || member k ys)
member-append k [] ys = refl
member-append k (x ∷ xs) ys = ground (arith, member-append k xs ys)

same_filled : (a b : String) → (non_empty a && a == b) ≡ (non_empty b && a == b)
same_filled a b = elim (Bool-cases (a == b)) [
  | inl same ↦ ap (λ x. non_empty x && a == b) ((eq_iff a b).0 same)
  | inr differ ↦ ground (arith, differ)
]

module _ {ℓ} {A : Type ℓ} (key : A → String) (k : String) where
  keys-insert :
      (name : String) (a : A) (rows : Dict A)
      → member k (keys (insert name a rows)) ≡ (k == name || member k (keys rows))
  unfolding insert
  keys-insert name a [] = refl
  keys-insert name a (entry ∷ rows) =
      ground (arith, keys-insert name a rows, eq_iff name entry.0, eq_iff k name, eq_iff k entry.0)

  keys-by_key :
      (xs : List A) (rows : Dict A)
      → member k (keys (by_key key xs rows))
        ≡ ((non_empty k && any (λ a. key a == k) xs) || member k (keys rows))
  unfolding by_key
  keys-by_key [] rows = ground arith
  keys-by_key (a ∷ xs) rows = elim (Bool-cases (non_empty (key a))) [
    | inl filled ↦ ground (
      arith,
      filled,
      keys-by_key xs (insert (key a) a rows),
      keys-insert (key a) a rows,
      same_filled (key a) k,
      eq_iff (key a) k,
      eq_iff k (key a),
    )
    | inr empty ↦ ground (arith, empty, keys-by_key xs rows, same_filled (key a) k)
  ]

merged :
    (k : String) (us_list : List UserSession) (meta_list : List Meta)
    → (member k (keys (by_key (λ (u : UserSession). u.session_key) us_list []))
        || member k (keys (by_key (λ (m : Meta). m.session_key) meta_list [])))
      ≡ (non_empty k
          && (any (λ (u : UserSession). u.session_key == k) us_list
              || any (λ (m : Meta). m.session_key == k) meta_list))
merged k us_list meta_list = ground (
  arith,
  keys-by_key (λ (u : UserSession). u.session_key) k us_list [],
  keys-by_key (λ (m : Meta). m.session_key) k meta_list [],
)

module _ (hmac : String → String) (request : Request) (live : List DjangoSession) where
  ids :
      (rows_of : String → SessionRow) (ks : List String)
      → ((k : String) → (rows_of k).id ≡ k)
      → map (λ (r : SessionRow). r.id) (map rows_of ks) ≡ ks
  ids rows_of [] h = refl
  ids rows_of (k ∷ ks) h =
      ap (λ x. x ∷ map (λ (r : SessionRow). r.id) (map rows_of ks)) (h k)
      ∙ ap (λ xs. k ∷ xs) (ids rows_of ks h)

  compose_row-id :
      (k : String) (us : Option UserSession) (m : Option Meta)
      → (compose_row hmac request live k us m).id ≡ k
  unfolding compose_row
  compose_row-id k us m = refl

  find-any : (p : DjangoSession → Bool) (xs : List DjangoSession) → is_some (find p xs) ≡ any p xs
  find-any p [] = refl
  find-any p (x ∷ xs) = ground (arith, find-any p xs)

  compose_row-alive :
      (k : String) (us : Option UserSession) (m : Option Meta)
      → (compose_row hmac request live k us m).revoked ≡ false
      → any (is_session k) live ≡ true
  unfolding compose_row
  compose_row-alive k us m h = ground (arith, h, find-any (is_session k) live)

  rows-alive :
      (us : Dict UserSession) (ms : Dict Meta) (ks : List String)
      → All
          (λ (r : SessionRow). r.revoked ≡ false → any (is_session r.id) live ≡ true)
          (map (λ k. compose_row hmac request live k (lookup k us) (lookup k ms)) ks)
  rows-alive us ms [] = tt
  rows-alive us ms (k ∷ ks) = (
    (λ h.
        subst (λ i. any (is_session i) live ≡ true)
          (sym (compose_row-id k (lookup k us) (lookup k ms)))
          (compose_row-alive k (lookup k us) (lookup k ms) h)),
    rows-alive us ms ks,
  )

  -- The listing shows a key exactly if it is the key of a row of allauth or of a meta row, and is not empty; a
  -- session that it shows as not revoked is one that Django still has.
  pub merge_rows_lem :
      (us_list : List UserSession) (meta_list : List Meta)
      → ((k : String)
          → member k
              (map (λ (r : SessionRow). r.id) (merge_rows hmac request live us_list meta_list))
            ≡ (non_empty k
                && (any (λ (u : UserSession). u.session_key == k) us_list
                    || any (λ (m : Meta). m.session_key == k) meta_list)))
        × All
            (λ (r : SessionRow). r.revoked ≡ false → any (is_session r.id) live ≡ true)
            (merge_rows hmac request live us_list meta_list)
  unfolding merge_rows
  merge_rows_lem us_list meta_list =
      let us = by_key (λ (u : UserSession). u.session_key) us_list [] in
      let ms = by_key (λ (m : Meta). m.session_key) meta_list [] in
      let all_keys = sorted_set (keys us ++ keys ms) in
      (
        (λ k.
            ap (member k) (
              ids (λ i. compose_row hmac request live i (lookup i us) (lookup i ms)) all_keys
                (λ i. compose_row-id i (lookup i us) (lookup i ms)))
            ∙ member-sorted_set k (keys us ++ keys ms)
            ∙ member-append k (keys us) (keys ms)
            ∙ merged k us_list meta_list),
        rows-alive us ms all_keys,
      )
