-- ===== src/Admin/Urls.antt =====
-- `safe_admin_next` of backend/accounts/services/admin_mfa.py: where an admin login may redirect to.
-- Django's `url_has_allowed_host_and_scheme`, for the request's host and scheme, and the path and the
-- query that `urlsplit` finds, with `urlunsplit` of them, are parameters.
use Prim.Native.Char.{code}
use Prim.Native.String.{count}
use jou_tak_web.Prelude.{
  ℕ, String, ◌≡◌, ◌⊎◌, inl, inr, refl, Bool, true, false, ◌&&◌, ◌||◌, not, List, [], ◌∷◌, ◌==◌, any,
  arith, ltb, nat_eq, if◌then◌else◌, Bool-cases,
}
use jou_tak_web.Prelude.Text.{has_prefix}
use jou_tak_web.Values.{Value, null, bool, int, str, non_empty}

abbrev pub any_char : (ℕ → Bool) → String → Bool
any_char p String.[] = false
any_char p (String.◌∷◌ c s) = p (code c) || any_char p s

abbrev into_first : List String → (String → String) → List String
into_first [] f = []
into_first (x ∷ xs) f = f x ∷ xs

-- `path.split("/")`
unfoldable pub segments : String → List String
segments String.[] = "" ∷ []
segments (String.◌∷◌ c s) =
    let rest = segments s in
    if nat_eq (code c) b'/' then "" ∷ rest else into_first rest (λ x. String.◌∷◌ c x)

pub record UrlLibrary : Type 0 where
  pub is_allowed : String → Bool
  pub split_path : String → String
  pub split_query : String → String
  pub unsplit : String → String → String

abbrev is_control : ℕ → Bool
is_control c = ltb c 32 || nat_eq c 127

abbrev is_dots : String → Bool
is_dots s = s == "." || s == ".."

-- A path that may follow a login: under /admin/, with no dot segment, no escape, and not of the login.
unfoldable pub is_safe_path : String → Bool
unfolding segments
is_safe_path path =
    not (any_char (nat_eq b'%') path || any is_dots (segments path))
    && has_prefix "/admin/" path
    && not (
        has_prefix "/admin/login/" path
        || has_prefix "/admin/logout/" path
        || has_prefix "/admin/mfa-verify/" path)

abbrev is_candidate : String → Bool
is_candidate s =
    non_empty s && not (ltb 2048 (count s)) && not (any_char (nat_eq 92) s || any_char is_control s)

abbrev next_of : UrlLibrary → String → String
next_of urls s =
    if not (is_candidate s && urls.is_allowed s)
    then "/admin/"
    else if is_safe_path (urls.split_path s)
    then urls.unsplit (urls.split_path s) (urls.split_query s)
    else "/admin/"

unfoldable pub safe_admin_next : UrlLibrary → Value → String
safe_admin_next urls (str s) = next_of urls s
safe_admin_next urls _ = "/admin/"

-- What the code asks of the path.
abbrev pub IsSafePath : String → Type 0
IsSafePath path =
    (has_prefix "/admin/" path ≡ true)
    × (has_prefix "/admin/login/" path ≡ false)
    × (has_prefix "/admin/logout/" path ≡ false)
    × (has_prefix "/admin/mfa-verify/" path ≡ false)
    × (any_char (nat_eq b'%') path ≡ false)
    × (any is_dots (segments path) ≡ false)

IsSafePath-parts : (path : String) → is_safe_path path ≡ true → IsSafePath path
unfolding is_safe_path
IsSafePath-parts path h =
    (ground arith, ground arith, ground arith, ground arith, ground arith, ground arith)

-- Whatever the candidate, the redirect goes to /admin/, or is rebuilt from the candidate's own path and
-- query, where the path starts with /admin/, is not of the login, logout and verification pages, and has
-- no "%" and no "." or ".." segment.
pub safe_admin_next-IsSafePath :
    (urls : UrlLibrary) (candidate : Value)
    → (safe_admin_next urls candidate ≡ "/admin/")
      ⊎ ((s : String) × (candidate ≡ str s)
          × (safe_admin_next urls candidate ≡ urls.unsplit (urls.split_path s) (urls.split_query s))
          × (urls.is_allowed s ≡ true)
          × IsSafePath (urls.split_path s))
unfolding safe_admin_next
safe_admin_next-IsSafePath urls (str s) = elim (Bool-cases (is_candidate s && urls.is_allowed s)) [
  | inr refused ↦ inl (rw refused)
  | inl fine ↦ elim (Bool-cases (is_safe_path (urls.split_path s))) [
    | inr unsafe ↦ inl (rw (fine, unsafe))
    | inl safe ↦
        inr (s, refl, rw (fine, safe), ground arith, IsSafePath-parts (urls.split_path s) safe)
  ]
]
safe_admin_next-IsSafePath urls null = inl refl
safe_admin_next-IsSafePath urls (bool b) = inl refl
safe_admin_next-IsSafePath urls (int n) = inl refl
