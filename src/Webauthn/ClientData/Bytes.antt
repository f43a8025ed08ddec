-- ===== src/Webauthn/ClientData/Bytes.antt =====
-- What base64url text decodes to.

use Prim.Native.String.{count}
use jou_tak_web.Prelude.{
  ℕ, zero, suc, any, leb, ltb, ◌≤◌, if◌then◌else◌, subst, sym, ◌∙◌, ◌*◌, ◌/◌, ◌%◌, ◌<◌, String, ◌≡◌,
  refl, Bool, true, false, ◌&&◌, not, List, [], ◌∷◌, arith, all, All, length, nat_eq, Bool-cases,
  ◌⊎◌, inl, inr,
}
use jou_tak_web.Values.{non_empty}
use jou_tak_web.Webauthn.ClientData.{
  Json, accepted, rejected, is_base64url, sextet, sextets, codes, bytes_of, decode_base64url,
}

sextet-lt : (c : ℕ) → is_base64url c ≡ true → sextet c < 64
unfolding sextet is_base64url
sextet-lt c h = ground arith

sextets-lt : (cs : List ℕ) → all is_base64url cs ≡ true → All (λ n. n < 64) (sextets cs)
unfolding sextets
sextets-lt [] h = tt
sextets-lt (c ∷ cs) h = (sextet-lt c (ground arith), sextets-lt cs (ground arith))

length-sextets : (cs : List ℕ) → length (sextets cs) ≡ length cs
unfolding sextets
length-sextets [] = omega arith
length-sextets (c ∷ cs) = omega (arith, length-sextets cs)

bytes_of-lt : (xs : List ℕ) → All (λ n. n < 64) xs → All (λ n. n < 256) (bytes_of xs)
unfolding bytes_of
bytes_of-lt [] h = tt
bytes_of-lt (a ∷ []) h = tt
bytes_of-lt (a ∷ b ∷ []) h = (omega (arith, h.0, h.1.0), tt)
bytes_of-lt (a ∷ b ∷ c ∷ []) h = (omega (arith, h.0, h.1.0), (omega (arith, h.1.1.0, h.1.0), tt))
bytes_of-lt (a ∷ b ∷ c ∷ d ∷ rest) h = (
  omega (arith, h.0, h.1.0),
  (omega (arith, h.1.1.0, h.1.0), (omega (arith, h.1.1.0, h.1.1.1.0), bytes_of-lt rest h.1.1.1.1)),
)

length-bytes_of : (xs : List ℕ) → length (bytes_of xs) ≡ length xs * 3 / 4
unfolding bytes_of
length-bytes_of [] = omega arith
length-bytes_of (a ∷ []) = omega arith
length-bytes_of (a ∷ b ∷ []) = omega arith
length-bytes_of (a ∷ b ∷ c ∷ []) = omega arith
length-bytes_of (a ∷ b ∷ c ∷ d ∷ rest) = omega (arith, length-bytes_of rest)

-- The characters of base64url.
abbrev pub alphabet : String
alphabet = "ABCDEFGHIJKLMNOPQRSTUVWXYZabcdefghijklmnopqrstuvwxyz0123456789-_"

-- A non-empty text of base64url characters whose length a base64 text without padding can have.
abbrev pub is_encoded : Json → Bool
is_encoded (Json.str s) =
    non_empty s
    && all (λ c. any (nat_eq c) (codes alphabet)) (codes s)
    && not (nat_eq (count s % 4) 1)
is_encoded _ = false

all_below : (ℕ → Bool) → ℕ → Bool
all_below p zero = true
all_below p (suc n) = p n && all_below p n

all_below_sound : (p : ℕ → Bool) (n m : ℕ) → all_below p n ≡ true → m < n → p m ≡ true
unfolding all_below
all_below_sound p zero m h lt = absurd (omega (arith, lt))
all_below_sound p (suc n) m h lt = elim (Bool-cases (nat_eq m n)) [
  | inl same ↦
      let eq : m ≡ n = ground (arith, same) in subst (λ k. p k ≡ true) (sym eq) (ground (arith, h))
  | inr other ↦ all_below_sound p n m (ground (arith, h)) (ground (arith, other, lt))
]

agrees : ℕ → Bool
agrees c =
    if is_base64url c
    then any (nat_eq c) (codes alphabet)
    else not (any (nat_eq c) (codes alphabet))

agrees_below : all_below agrees 123 ≡ true
unfolding all_below agrees is_base64url
agrees_below = refl

any-above :
    (c : ℕ) (xs : List ℕ) → all (λ x. leb x 122) xs ≡ true → 123 ≤ c → any (nat_eq c) xs ≡ false
any-above c [] h le = refl
any-above c (x ∷ xs) h le = ground (arith, any-above c xs (ground (arith, h)) le)

same_bool : (a b : Bool) → (if a then b else not b) ≡ true → a ≡ b
same_bool true b h = sym h
same_bool false true h = h
same_bool false false h = refl

is_base64url-above : (c : ℕ) → 123 ≤ c → is_base64url c ≡ false
unfolding is_base64url
is_base64url-above c le = ground (arith, le)

is_base64url-alphabet : (c : ℕ) → is_base64url c ≡ any (nat_eq c) (codes alphabet)
unfolding agrees
is_base64url-alphabet c = elim (Bool-cases (ltb c 123)) [
  | inl small ↦
      let fits = all_below_sound agrees 123 c agrees_below (ground (arith, small)) in
      same_bool (is_base64url c) (any (nat_eq c) (codes alphabet)) fits
  | inr large ↦
      let outside = any-above c (codes alphabet) refl (ground (arith, large)) in
      is_base64url-above c (ground (arith, large)) ∙ sym outside
]

all-alphabet : (cs : List ℕ) → all is_base64url cs ≡ all (λ c. any (nat_eq c) (codes alphabet)) cs
all-alphabet [] = refl
all-alphabet (c ∷ cs) = rw (is_base64url-alphabet c, all-alphabet cs) refl

decode-encoded :
    (s : String)
    → is_encoded (Json.str s) ≡ true
    → decode_base64url (Json.str s) ≡ accepted (bytes_of (sextets (codes s)))
unfolding decode_base64url
decode-encoded s h = ground (arith, h, all-alphabet (codes s))

decode-text :
    (s : String)
    → is_encoded (Json.str s) ≡ false
    → (reason : String) × (decode_base64url (Json.str s) ≡ rejected reason)
unfolding decode_base64url
decode-text s h = elim (Bool-cases (non_empty s)) [
  | inl there ↦ ("invalid_client_data_encoding", ground (arith, h, there, all-alphabet (codes s)))
  | inr empty ↦ ("missing_client_data", ground (arith, empty))
]

-- What is decoded: bytes, three for each four characters.
pub record IsDecoded (s : String) (bytes : List ℕ) : Type 0 where
  pub decoded_eq : decode_base64url (Json.str s) ≡ accepted bytes
  pub small : All (λ n. n < 256) bytes
  pub length_eq : length bytes ≡ length (codes s) * 3 / 4

decode-IsDecoded :
    (s : String) → is_encoded (Json.str s) ≡ true → IsDecoded s (bytes_of (sextets (codes s)))
decode-IsDecoded s h = record {
  decoded_eq = decode-encoded s h;
  small =
      bytes_of-lt (sextets (codes s))
        (sextets-lt (codes s) (ground (arith, h, all-alphabet (codes s))));
  length_eq = omega (arith, length-bytes_of (sextets (codes s)), length-sextets (codes s));
}

abbrev Outcome : Json → Type 0
Outcome j =
    ((s : String) × (bytes : List ℕ) × (j ≡ Json.str s) × (is_encoded j ≡ true) × IsDecoded s bytes)
    ⊎ (is_encoded j ≡ false) × (reason : String) × (decode_base64url j ≡ rejected reason)

decode-other :
    (j : Json)
    → is_encoded j ≡ false
    → decode_base64url j ≡ rejected "missing_client_data"
    → Outcome j
decode-other j h e = inr (h, "missing_client_data", e)

-- Every JSON value is decoded or rejected with a reason. It is decoded exactly if it is a non-empty text
-- of base64url characters whose length is not 1 modulo 4, and then into bytes, three for each four
-- characters.
pub decode_base64url_bounds :
    (j : Json)
    → ((s : String) × (bytes : List ℕ) × (j ≡ Json.str s)
        × (is_encoded j ≡ true)
        × IsDecoded s bytes)
      ⊎ (is_encoded j ≡ false) × (reason : String) × (decode_base64url j ≡ rejected reason)
unfolding decode_base64url
decode_base64url_bounds (Json.str s) = elim (Bool-cases (is_encoded (Json.str s))) [
  | inl fits ↦ inl (s, bytes_of (sextets (codes s)), refl, fits, decode-IsDecoded s fits)
  | inr unfit ↦ let (reason, refused) = decode-text s unfit in inr (unfit, reason, refused)
]
decode_base64url_bounds Json.null = decode-other Json.null refl refl
decode_base64url_bounds (Json.bool b) = decode-other (Json.bool b) refl refl
decode_base64url_bounds Json.number = decode-other Json.number refl refl
decode_base64url_bounds Json.array = decode-other Json.array refl refl
decode_base64url_bounds (Json.object m) = decode-other (Json.object m) refl refl
