-- ===== src/Account/Email.antt =====
-- backend/accounts/services/email_addresses.py: a user's e-mail and the rows of allauth's `EmailAddress`. What
-- allauth does to its rows is a parameter.
pub mod Stable
mod Tests
use jou_tak_web.Prelude.{
  String, Bool, true, false, not, Option, none, some, List, ◌==◌, if◌then◌else◌,
}
use jou_tak_web.Values.{non_empty}

pub record EmailAddress : Type 0 where
  pub email : String
  pub primary : Bool

-- The user's own e-mail ("" for none) and the addresses of the user.
pub record Emails : Type 0 where
  pub user_email : String
  pub addresses : List EmailAddress

-- `get_primary`, `get_for_user`, `add_email` and `set_as_primary`, which also writes the user's own e-mail.
pub record AddressBook : Type 0 where
  pub get_primary : List EmailAddress → Option EmailAddress
  pub get_for_user : String → List EmailAddress → Option EmailAddress
  pub add_email : String → List EmailAddress → EmailAddress × List EmailAddress
  pub set_as_primary : EmailAddress → Emails → EmailAddress × Emails

-- `EmailAddressSyncResult`
pub record EmailAddressSyncResult : Type 0 where
  pub created : Bool
  pub updated_user_email : Bool
  pub promoted_primary : Bool

abbrev pub unchanged : EmailAddressSyncResult
unchanged = record { created = false; updated_user_email = false; promoted_primary = false }

-- An account without an e-mail takes that of its primary address.
abbrev pub adopted : Option EmailAddress → Emails → EmailAddressSyncResult × Emails
adopted none e = (unchanged, e)
adopted (some a) e =
    if non_empty a.email
    then (record unchanged { updated_user_email = true }, record e { user_email = a.email })
    else (unchanged, e)

-- The last step: the user's e-mail is written as the address has it.
abbrev pub aligned :
    EmailAddressSyncResult → EmailAddress × Emails → EmailAddressSyncResult × Emails
aligned result (a, e) =
    if e.user_email == a.email
    then (result, e)
    else (record result { updated_user_email = true }, record e { user_email = a.email })

module _ (book : AddressBook) where
  abbrev pub promoted :
      EmailAddressSyncResult → EmailAddress × Emails → EmailAddressSyncResult × Emails
  promoted result (a, e) =
      if a.primary
      then aligned result (a, e)
      else aligned (record result { promoted_primary = true }) (book.set_as_primary a e)

  abbrev pub with_address : Emails → Option EmailAddress → EmailAddressSyncResult × Emails
  with_address e (some a) = promoted unchanged (a, e)
  with_address e none =
      let added = book.add_email e.user_email e.addresses in
      promoted (record unchanged { created = true }) (added.0, record e { addresses = added.1 })

  -- `sync_user_email_address`
  unfoldable pub sync_user_email_address : Emails → EmailAddressSyncResult × Emails
  sync_user_email_address e =
      if non_empty e.user_email
      then with_address e (book.get_for_user e.user_email e.addresses)
      else adopted (book.get_primary e.addresses) e
