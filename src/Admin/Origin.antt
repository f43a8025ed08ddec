-- ===== src/Admin/Origin.antt =====
-- backend/backend/middleware.py: the guard against unsafe requests from another origin. The standard
-- library's `urlsplit` is a parameter.
use Prim.Native.Char.{code}
use Prim.Native.String.{◌++◌}
use jou_tak_web.Prelude.{
  ℕ, String, ◌≡◌, refl, sym, ◌∙◌, ap, Bool, true, false, ◌&&◌, ◌||◌, not, Option, none, some, List,
  ◌∷◌, [], ◌==◌, nat_eq, ltb, member, all, map, arith, eq_iff, if◌then◌else◌, if-false, ◌⊎◌, inl,
  inr, Option-cases, Bool-cases, some-injective,
}
use jou_tak_web.Prelude.Text.{lower, strip, decimal, has_prefix}
use jou_tak_web.Values.{non_empty}
use jou_tak_web.Admin.Hosts.{
  AdminRequest, Hosts, Outcome, passed, forbidden, is_listed_host, has_no_colon, IsHeader,
  is_listed_host-name,
}

-- What `urlsplit` gives, with the attributes that are read of it.
pub record Split : Type 0 where
  pub scheme : String
  pub netloc : String
  pub path : String
  pub query : String
  pub username : Option String
  pub password : Option String
  pub hostname : Option String
  pub port : Option ℕ

-- Scheme, host and port of an origin.
pub record OriginParts : Type 0 where
  pub scheme : String
  pub host : String
  pub port : Option ℕ

-- A character of the code is in the text.
unfoldable pub has_char : ℕ → String → Bool
has_char x String.[] = false
has_char x (String.◌∷◌ c s) = nat_eq (code c) x || has_char x s

unfoldable pub has_control : String → Bool
has_control String.[] = false
has_control (String.◌∷◌ c s) = ltb (code c) 32 || nat_eq (code c) 127 || has_control s

abbrev is_none : Option String → Bool
is_none none = true
is_none (some s) = false

abbrev text_or_empty : Option String → String
text_or_empty none = ""
text_or_empty (some s) = s

-- `canonical_netloc`
abbrev pub canonical_netloc : OriginParts → String
canonical_netloc p =
    let host = if has_char b':' p.host then "[" ++ p.host ++ "]" else p.host in
    elim p.port [ none ↦ host | some port ↦ host ++ ":" ++ decimal port ]

-- `canonical_origin`
abbrev pub canonical_origin : OriginParts → String
canonical_origin p = p.scheme ++ "://" ++ canonical_netloc p

abbrev has_bad_text : String → Bool
has_bad_text value = not (non_empty value) || not (value == strip value) || has_control value

abbrev has_bad_parts : Split → Bool
has_bad_parts s =
    not (s.scheme == "http" || s.scheme == "https")
    || not (non_empty (text_or_empty s.hostname))
    || not (is_none s.username)
    || not (is_none s.password)

abbrev parts_of : Split → OriginParts
parts_of s = record { scheme = s.scheme; host = lower (text_or_empty s.hostname); port = s.port }

-- The address is its origin, or with `allow_path` has no other authority than that.
abbrev is_canonical : String → Bool → Split → Bool
is_canonical value allow_path s =
    if not allow_path
    then value == canonical_origin (parts_of s)
    else s.netloc == canonical_netloc (parts_of s)
      && (not (non_empty s.path) || has_prefix "/" s.path)
      && not (has_char b'#' value)
      && (not (has_char b'?' value) || non_empty s.query)

-- The parts of a split address; `none` is `ValueError`.
abbrev split_parts : String → Bool → Option Split → Option OriginParts
split_parts value allow_path none = none
split_parts value allow_path (some s) =
    if has_bad_parts s || not (is_canonical value allow_path s) then none else some (parts_of s)

abbrev port_eq : Option ℕ → Option ℕ → Bool
port_eq none none = true
port_eq (some a) (some b) = nat_eq a b
port_eq _ _ = false

abbrev parts_eq : Option OriginParts → OriginParts → Bool
parts_eq none q = false
parts_eq (some p) q = p.scheme == q.scheme && p.host == q.host && port_eq p.port q.port

abbrev pub is_safe_method : String → Bool
is_safe_method m = member m ("GET" ∷ "HEAD" ∷ "OPTIONS" ∷ "TRACE" ∷ [])

abbrev pub expected_origin : AdminRequest → String
expected_origin r = r.scheme ++ "://" ++ lower r.host

port_eq_sound : (a b : Option ℕ) → port_eq a b ≡ true → a ≡ b
port_eq_sound none none h = refl
port_eq_sound (some a) (some b) h = ground arith
port_eq_sound none (some b) h = cc
port_eq_sound (some a) none h = cc

parts_eq_sound : (o : Option OriginParts) (q : OriginParts) → parts_eq o q ≡ true → o ≡ some q
parts_eq_sound none q h = cc
parts_eq_sound (some p) q h =
    let schemes = (eq_iff p.scheme q.scheme).0 (ground arith) in
    let hosts = (eq_iff p.host q.host).0 (ground arith) in
    let ports = port_eq_sound p.port q.port (ground arith) in
    λ i. some (record { scheme = schemes i; host = hosts i; port = ports i })

-- `urlsplit` of a text, with its port read; `none` where one of them raises `ValueError`.
module _ (urlsplit : String → Option Split) where
  -- `_origin_parts`
  unfoldable pub origin_parts : String → Bool → Option OriginParts
  origin_parts value allow_path =
      if has_bad_text value then none else split_parts value allow_path (urlsplit value)

  module _ (allowed_origins : List String) where
    abbrev pub matches_expected : AdminRequest → OriginParts → Bool
    matches_expected r expected = elim r.origin [
      | some origin ↦ parts_eq (origin_parts origin false) expected
      | none ↦ elim r.referer [
        | none ↦ false
        | some referer ↦ parts_eq (origin_parts referer true) expected
      ]
    ]

    -- `admin_request_has_exact_origin`
    unfoldable pub admin_request_has_exact_origin : AdminRequest → Bool
    admin_request_has_exact_origin r = elim (origin_parts (expected_origin r) false) [
      | none ↦ false
      | some expected ↦ member (expected_origin r) allowed_origins && matches_expected r expected
    ]

    -- `AdminSameOriginMiddleware`
    unfoldable pub check_same_origin : Hosts → AdminRequest → Outcome
    check_same_origin hosts r =
        if is_listed_host hosts.admin r.host
          && (r.path == "/admin" || has_prefix "/admin/" r.path)
          && not (is_safe_method r.method)
          && not (admin_request_has_exact_origin r)
        then forbidden "Admin unsafe requests require a same-origin browser context."
        else passed

  split_parts-some :
      (value : String) (allow_path : Bool) (s : Split) (p : OriginParts)
      → split_parts value allow_path (some s) ≡ some p
      → (is_canonical value allow_path s ≡ true) × (parts_of s ≡ p)
  split_parts-some value allow_path s p h =
      elim (Bool-cases (has_bad_parts s || not (is_canonical value allow_path s))) [
        | inl bad ↦ cc
        | inr good ↦ (ground (arith, good), some-injective (parts_of s) p (rw good at h))
      ]

  parts-split :
      (value : String) (allow_path : Bool) (p : OriginParts)
      → origin_parts value allow_path ≡ some p
      → (s : Split) × (urlsplit value ≡ some s)
        × (is_canonical value allow_path s ≡ true)
        × (parts_of s ≡ p)
  unfolding origin_parts
  parts-split value allow_path p h = elim (Bool-cases (has_bad_text value)) [
    | inl bad ↦ cc
    | inr good ↦
        let given : split_parts value allow_path (urlsplit value) ≡ some p =
          if-false (has_bad_text value) none (split_parts value allow_path (urlsplit value))
            (some p) good h in
        elim (Option-cases (urlsplit value)) [
          | inl invalid ↦ cc
          | inr (s, found) ↦
              let split = split_parts-some value allow_path s p (rw found at given) in
              (s, found, split.0, split.1)
        ]
  ]

  origin_parts-exact :
      (value : String) (p : OriginParts)
      → origin_parts value false ≡ some p
      → value ≡ canonical_origin p
  origin_parts-exact value p h =
      let (s, found, canonical, parts) = parts-split value false p h in
      (eq_iff value (canonical_origin (parts_of s))).0 canonical ∙ ap canonical_origin parts

  origin_parts-referer :
      (value : String) (p : OriginParts)
      → origin_parts value true ≡ some p
      → (s : Split) × (urlsplit value ≡ some s)
        × (s.scheme ++ "://" ++ s.netloc ≡ canonical_origin p)
  origin_parts-referer value p h =
      let (s, found, canonical, parts) = parts-split value true p h in
      let netloc : s.netloc ≡ canonical_netloc (parts_of s) =
        (eq_iff s.netloc (canonical_netloc (parts_of s))).0 (ground (arith, canonical)) in
      (s, found, ap (λ n. s.scheme ++ "://" ++ n) netloc ∙ ap canonical_origin parts)

  -- The browser's own word for where the request comes from.
  abbrev pub ComesFrom : AdminRequest → String → Type 0
  ComesFrom r expected =
      (r.origin ≡ some expected)
      ⊎ (r.origin ≡ none)
        × (referer : String) × (r.referer ≡ some referer)
        × (s : Split) × (urlsplit referer ≡ some s)
        × (s.scheme ++ "://" ++ s.netloc ≡ expected)

  matches-ComesFrom :
      (allowed_origins : List String) (r : AdminRequest) (expected : OriginParts) (text : String)
      → text ≡ canonical_origin expected
      → matches_expected allowed_origins r expected ≡ true
      → ComesFrom r text
  matches-ComesFrom allowed_origins r expected text same h = elim (Option-cases r.origin) [
    | inr (origin, sent) ↦
        let parts = parts_eq_sound (origin_parts origin false) expected (ground (arith, sent)) in
        inl (sent ∙ ap some (origin_parts-exact origin expected parts ∙ sym same))
    | inl missing ↦ elim (Option-cases r.referer) [
      | inl neither ↦ absurd (ground (arith, missing, neither))
      | inr (referer, sent) ↦
          let parts =
            parts_eq_sound (origin_parts referer true) expected (ground (arith, missing, sent)) in
          let (s, found, from) = origin_parts-referer referer expected parts in
          inr (missing, referer, sent, s, found, from ∙ sym same)
    ]
  ]

  exact_origin-ComesFrom :
      (allowed_origins : List String) (r : AdminRequest)
      → admin_request_has_exact_origin allowed_origins r ≡ true
      → (member (expected_origin r) allowed_origins ≡ true) × ComesFrom r (expected_origin r)
  unfolding admin_request_has_exact_origin
  exact_origin-ComesFrom allowed_origins r h =
      elim (Option-cases (origin_parts (expected_origin r) false)) [
        | inl unknown ↦ absurd (ground (arith, unknown))
        | inr (expected, found) ↦ (
          ground (arith, found),
          matches-ComesFrom allowed_origins r expected (expected_origin r)
              (origin_parts-exact (expected_origin r) expected found) (ground (arith, found)),
        )
      ]

  -- A request under /admin to an admin host, in a method that is not safe, is handed on only if the scheme
  -- and the host it was sent to are an allowed origin, and its `Origin` header is exactly that origin; if it
  -- has no `Origin`, then the scheme and the authority of its `Referer` are that origin. The admin hosts are
  -- listed without ports.
  pub check_same_origin-passed :
      (allowed_origins : List String) (hosts : Hosts) (r : AdminRequest) (name : String)
      → all has_no_colon hosts.admin ≡ true
      → has_no_colon name ≡ true
      → IsHeader name r.host
      → member (lower name) (map lower hosts.admin) ≡ true
      → (r.path == "/admin" || has_prefix "/admin/" r.path) ≡ true
      → member r.method ("GET" ∷ "HEAD" ∷ "OPTIONS" ∷ "TRACE" ∷ []) ≡ false
      → check_same_origin allowed_origins hosts r ≡ passed
      → (member (r.scheme ++ "://" ++ lower r.host) allowed_origins ≡ true)
        × ((r.origin ≡ some (r.scheme ++ "://" ++ lower r.host))
            ⊎ (r.origin ≡ none)
              × (referer : String) × (r.referer ≡ some referer)
              × (s : Split) × (urlsplit referer ≡ some s)
              × (s.scheme ++ "://" ++ s.netloc ≡ r.scheme ++ "://" ++ lower r.host))
  unfolding check_same_origin
  check_same_origin-passed allowed_origins hosts r name clean bare_name header listed under unsafe
        h =
      let named = is_listed_host-name hosts.admin name r.host clean bare_name header in
      exact_origin-ComesFrom allowed_origins r
        (elim (Bool-cases (admin_request_has_exact_origin allowed_origins r)) [
          | inl exact ↦ exact
          | inr other ↦ absurd (ground (arith, named, listed, under, unsafe, other))
        ])
