-- ===== src/Account/Email/Stable.antt =====
-- A synchronisation leaves nothing for the next one to do.
use jou_tak_web.Prelude.{
  String, ◌≡◌, refl, sym, subst, true, Option, none, some, List, ◌==◌, eq_iff, arith, if-cases,
}
use jou_tak_web.Values.{non_empty}
use jou_tak_web.Account.Email.{
  EmailAddress, Emails, AddressBook, EmailAddressSyncResult, unchanged, adopted, aligned, promoted,
  with_address, sync_user_email_address,
}

-- What allauth documents: an address that is found, added or made primary has an e-mail and is found by it, and
-- one that is made primary is primary.
pub record IsAddressBook (book : AddressBook) : Type 0 where
  pub found_again :
      (email : String) (rows : List EmailAddress) (a : EmailAddress)
      → book.get_for_user email rows ≡ some a
      → (non_empty a.email ≡ true) × (book.get_for_user a.email rows ≡ some a)
  pub added :
      (email : String) (rows : List EmailAddress)
      → non_empty email ≡ true
      → (non_empty (book.add_email email rows).0.email ≡ true)
        × (book.get_for_user (book.add_email email rows).0.email (book.add_email email rows).1
            ≡ some (book.add_email email rows).0)
  pub made_primary :
      (a : EmailAddress) (e : Emails)
      → (book.get_for_user a.email e.addresses ≡ some a)
      → non_empty a.email ≡ true
      → ((book.set_as_primary a e).0.primary ≡ true)
        × (non_empty (book.set_as_primary a e).0.email ≡ true)
        × (book.get_for_user (book.set_as_primary a e).0.email (book.set_as_primary a e).1.addresses
            ≡ some (book.set_as_primary a e).0)

-- The user's e-mail is that of a primary address.
pub record IsSynced (book : AddressBook) (e : Emails) : Type 0 where
  pub address : EmailAddress
  pub found : book.get_for_user e.user_email e.addresses ≡ some address
  pub primary : address.primary ≡ true
  pub same : address.email ≡ e.user_email
  pub filled : non_empty e.user_email ≡ true

module _ (book : AddressBook) where
  aligned-IsSynced :
      (result : EmailAddressSyncResult) (a : EmailAddress) (e : Emails)
      → a.primary ≡ true
      → non_empty a.email ≡ true
      → book.get_for_user a.email e.addresses ≡ some a
      → IsSynced book (aligned result (a, e)).1
  aligned-IsSynced result a e primary filled found =
      if-cases (λ (r : EmailAddressSyncResult × Emails). IsSynced book r.1)
        (e.user_email == a.email) (result, e)
        (record result { updated_user_email = true }, record e { user_email = a.email })
        (λ same.
          let eq : e.user_email ≡ a.email = (eq_iff e.user_email a.email).0 same in
          record {
            address = a;
            found = subst (λ x. book.get_for_user x e.addresses ≡ some a) (sym eq) found;
            primary = primary;
            same = sym eq;
            filled = subst (λ x. non_empty x ≡ true) (sym eq) filled;
          })
        (λ differ. record {
          address = a;
          found = found;
          primary = primary;
          same = refl;
          filled = filled;
        })

  promoted-IsSynced :
      (laws : IsAddressBook book) (result : EmailAddressSyncResult) (a : EmailAddress) (e : Emails)
      → non_empty a.email ≡ true
      → book.get_for_user a.email e.addresses ≡ some a
      → IsSynced book (promoted book result (a, e)).1
  promoted-IsSynced laws result a e filled found =
      let made = laws.made_primary a e found filled in
      let next = book.set_as_primary a e in
      if-cases (λ (r : EmailAddressSyncResult × Emails). IsSynced book r.1) a.primary
        (aligned result (a, e)) (aligned (record result { promoted_primary = true }) next)
        (λ is_. aligned-IsSynced result a e is_ filled found)
        (λ no_.
          aligned-IsSynced (record result { promoted_primary = true }) next.0 next.1 made.0 made.1
            made.2)

  with_address-IsSynced :
      (laws : IsAddressBook book) (e : Emails) (o : Option EmailAddress)
      → non_empty e.user_email ≡ true
      → book.get_for_user e.user_email e.addresses ≡ o
      → IsSynced book (with_address book e o).1
  with_address-IsSynced laws e (some a) filled found =
      let again = laws.found_again e.user_email e.addresses a found in
      promoted-IsSynced laws unchanged a e again.0 again.1
  with_address-IsSynced laws e none filled missing =
      let new = book.add_email e.user_email e.addresses in
      let known = laws.added e.user_email e.addresses filled in
      promoted-IsSynced laws (record unchanged { created = true }) new.0
        (record e { addresses = new.1 }) known.0 known.1

  sync_user_email_address-IsSynced :
      (laws : IsAddressBook book) (e : Emails)
      → non_empty e.user_email ≡ true
      → IsSynced book (sync_user_email_address book e).1
  unfolding sync_user_email_address
  sync_user_email_address-IsSynced laws e filled =
      if-cases (λ (r : EmailAddressSyncResult × Emails). IsSynced book r.1) (non_empty e.user_email)
        (with_address book e (book.get_for_user e.user_email e.addresses))
        (adopted (book.get_primary e.addresses) e)
        (λ is_.
          with_address-IsSynced laws e (book.get_for_user e.user_email e.addresses) filled refl)
        (λ no_. grind (arith, no_, filled))

  stays : (e : Emails) → IsSynced book e → sync_user_email_address book e ≡ (unchanged, e)
  unfolding sync_user_email_address
  stays e s =
      ground
        (arith, s.found, s.primary, s.filled, (eq_iff e.user_email s.address.email).1 (sym s.same))

  -- After the synchronisation of an account that has an e-mail, that e-mail is the one of a primary address of the
  -- account, and the next synchronisation reports no change and changes nothing.
  pub sync_user_email_address_idem :
      (e : Emails)
      → IsAddressBook book
      → non_empty e.user_email ≡ true
      → IsSynced book (sync_user_email_address book e).1
        × (sync_user_email_address book (sync_user_email_address book e).1
            ≡ (unchanged, (sync_user_email_address book e).1))
  sync_user_email_address_idem e laws filled =
      let synced = sync_user_email_address-IsSynced laws e filled in
      (synced, stays (sync_user_email_address book e).1 synced)
