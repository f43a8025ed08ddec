-- ===== src/Account/Email/Tests.antt =====
-- A book with one address for each text, and an account that is new to it.

use jou_tak_web.Prelude.{
  String, ◌≡◌, refl, sym, subst, true, none, some, [], ap, arith, Bool-cases, inl, inr, if-true,
  if-false, some-injective, if◌then◌else◌,
}
use jou_tak_web.Values.{non_empty}
use jou_tak_web.Account.Email.{
  EmailAddress, Emails, AddressBook, unchanged, sync_user_email_address,
}
use jou_tak_web.Account.Email.Stable.{IsAddressBook, IsSynced, sync_user_email_address_idem}

-- Any text is the user's primary address here.
abbrev book : AddressBook
book = record {
  get_primary = λ rows. none;
  get_for_user = λ email rows.
      if non_empty email then some (record { email = email; primary = true }) else none;
  add_email = λ email rows. (record { email = email; primary = true }, rows);
  set_as_primary = λ a e. (record a { primary = true }, e);
}

given :
    (email : String) (a : EmailAddress)
    → (if non_empty email then some (record { email = email; primary = true }) else none) ≡ some a
    → (non_empty email ≡ true) × (record { email = email; primary = true } ≡ a)
given email a h = elim (Bool-cases (non_empty email)) [
  | inl is_ ↦ (is_, some-injective _ a (if-true (non_empty email) _ _ _ is_ h))
  | inr no_ ↦ grind (arith, if-false (non_empty email) _ _ _ no_ h)
]

again :
    (a : EmailAddress)
    → non_empty a.email ≡ true
    → a.primary ≡ true
    → (if non_empty a.email then some (record { email = a.email; primary = true }) else none)
      ≡ some a
again a filled primary = ground (arith, filled, primary)

book-IsAddressBook : IsAddressBook book
book-IsAddressBook = record {
  found_again = λ email rows a h.
      let g = given email a h in
      let filled = subst (λ (x : EmailAddress). non_empty x.email ≡ true) g.1 g.0 in
      (filled, again a filled (sym (ap (λ (x : EmailAddress). x.primary) g.1)));
  added =
      λ email rows filled. (filled, again (record { email = email; primary = true }) filled refl);
  made_primary =
      λ a e found filled. (refl, filled, again (record a { primary = true }) filled refl);
}

abbrev account : Emails
account = record { user_email = "a@joutak.ru"; addresses = [] }

sync_user_email_address_idem_example :
    IsSynced book (sync_user_email_address book account).1
    × (sync_user_email_address book (sync_user_email_address book account).1
        ≡ (unchanged, (sync_user_email_address book account).1))
sync_user_email_address_idem_example =
    sync_user_email_address_idem book account book-IsAddressBook refl
