-- ===== src/Lib.antt =====
-- A model of the decisions that the JouTakWeb backend makes: which variant of a feature an actor sees,
-- which of an account's sessions are alive, which tokens and WebAuthn challenges are accepted, and who may
-- enter the admin site. It covers Python code under backend/.
--
-- The parts and how they meet:
-- * The feature registry (backend/featureflags/registry.py) lists the flags and, for each, a rollout
--   policy. Registry.antt has the entries and the lookups, Registry/Catalogue.antt the program's own
--   registry, Registry/Validation.antt `validate_registry`, in the order of its checks.
-- * The evaluation (backend/featureflags/services.py, on the rows of backend/featureflags/models.py)
--   asks, in this order, the preview of the request, the database overrides, the sticky assignment and
--   the rules, and holds every candidate to the registry's policy. Features/Model.antt has the rows and
--   the context, Features/Rules.antt `_rule_matches` and `_db_override`, Features/Policy.antt
--   `_policy_value_allowed` and the safe default, Features/Assignments.antt the sticky rows,
--   Features/Evaluate.antt `_evaluate_definition` and `evaluate_many`, Features/Preview.antt the cookie
--   of a staff user's previews, Features/Request.antt `build_context`, Features/Bridge.antt the contexts
--   of the OpenFeature library, and the provider (backend/featureflags/provider.py) that resolves flags
--   through them. What an evaluation writes, the assignments and the context's cache of required groups,
--   is a state that the functions take and return.
-- * The rollouts of the admin site (backend/featureflags/admin_services.py): Rollouts/Model.antt has the
--   rows and the shared checks, Rollouts/Create.antt `create_rollout`, Rollouts/Switch.antt
--   `start_rollout`, `stop_rollout` and `add_design_tester`, Rollouts/Steps.antt makes them steps of the
--   table of rules. They ask the registry which audiences, values and pages a flag allows.
-- * The session service (backend/accounts/services/sessions.py, on the rows of backend/core/models.py)
--   keeps one meta row for each session. Sessions/Model.antt has the tables, Sessions/Touch.antt `touch`,
--   Sessions/Revoke.antt `revoke_single` and `revoke_bulk`, Sessions/Listing.antt `list`; an
--   operation takes the tables and returns them.
-- * The token pairs of a session (backend/accounts/services/auth.py): Auth.antt has
--   `issue_pair_for_session`, `refresh_pair` and `logout_current` on the tables of the session service,
--   Auth/Rotation.antt makes them and the revocation steps of these tables.
-- * The admin site: Admin/Mfa.antt is the second factor of backend/accounts/services/admin_mfa.py on a
--   session, Admin/Urls.antt its redirects, Admin/Hosts.antt and Admin/Origin.antt the
--   middleware of backend/backend/middleware.py, which asks Admin/Mfa.antt. Admin/Mfa/Protocol.antt makes every
--   operation a step on one session.
-- * The profile and the status of an account (backend/accounts/services/profile.py, personalization.py
--   and account_status.py): Account/Profile.antt has the row and the checks of single fields,
--   Account/Update.antt `update_profile_fields`, Account/Status.antt `get_status` and
--   `require_personalized_profile`, which ask the evaluation for the personalization flags, and
--   Account/Email.antt `sync_user_email_address` (email_addresses.py).
-- * The WebAuthn ceremonies of both surfaces (backend/accounts/middleware.py and webauthn.py):
--   Webauthn/ClientData.antt decodes and checks the client data, Webauthn/Challenge.antt has the
--   session's entries and their bindings, Webauthn/Consume.antt `_consume_challenge`,
--   Webauthn/Boundary.antt `_store_challenge` and the helpers, Webauthn/Middleware.antt the middleware
--   before and after the view. Nonces are claimed in the cache of Cache.antt
--   (backend/backend/cache_backends.py), which never evicts a live row.
-- Prelude.antt and Values.antt hold what the parts share: lists, dictionaries, texts, and Python's
-- scalars with `str`, `bool` and `int` of them. Each part has its theorems in child modules, and a module
-- Tests.
--
-- Code that is not the repository's is a parameter: SHA-256, the HMAC digest and Django's signer of
-- cookies are functions; what allauth and Django do to their session rows (`end`, `logout`), to a
-- session at a login (`login`, `cycle_key`), and their parsing of URLs are functions in records
-- (Effects, Library, Env, UrlLibrary, DatabaseCache, Platform, Tokens, AddressBook). Times are whole
-- seconds, and in the ceremonies and the cache microseconds, and a parameter of each operation. No function needs fuel: all recursion is on a list or a
-- text. Python's exceptions are `none` or an error value, beside the state as it was when they were
-- raised.
--
-- Texts are lists of characters; `strip` knows Unicode's white space, `lower` the letters that become
-- ASCII letters, which covers the keys, kinds and tokens of the code. The digits that `\d` matches and
-- the maximal length of a name, which Django's user model sets, are parameters (Rules). Columns that no
-- modelled code reads (names, notes, times of edits) are left out. A query is a search in a list of rows
-- in the order of the table. A row's history of edits holds only whether it was enabled, and the checks of
-- Django's own fields in `full_clean` are a parameter (Fields).
--
-- Not modelled: rate limits, OAuth and the change of passwords, avatars, the admin screens, the HTTP layer, settings and the frontend.
pub mod Prelude
pub mod Values
pub mod Registry
pub mod Features
pub mod Sessions
pub mod Admin
pub mod Account
pub mod Cache
pub mod Webauthn
pub mod Rollouts
pub mod Auth
