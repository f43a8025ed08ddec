-- ===== src/Features/Preview/RoundTrip.antt =====
-- A preview cookie that was set is read back.
use jou_tak_web.Prelude.{
  String, ◌≡◌, refl, ◌∙◌, ap, true, false, ◌&&◌, some, [], ◌∷◌, arith, map, Bool-cases,
  Option-cases, inl, inr, ◌==◌, nat_eq, if◌then◌else◌,
}
use jou_tak_web.Prelude.Text.{lower, strip}
use jou_tak_web.Prelude.Assoc.{Dict, lookup}
use jou_tak_web.Values.{Value, null, bool, int, str, shown, non_empty, normalized}
use jou_tak_web.Registry.{Site, Spec, is_valid_override_value, is_valid_for}
use jou_tak_web.Features.Model.{User}
use jou_tak_web.Features.Preview.{
  Signer, cookie, is_allowed, as_text, text_entry, validated_overrides, preview_payload,
  read_override_cookie, set_override_cookie, can_use_request_overrides,
}

true_is_normal : normalized (str "True") ≡ "true"
unfolding normalized lower strip shown
true_is_normal = refl

false_is_normal : normalized (str "False") ≡ "false"
unfolding normalized lower strip shown
false_is_normal = refl

-- A value that is valid stays valid as a text.
is_valid_for-str :
    (spec : Spec) (v : Value)
    → is_valid_for spec v ≡ true
    → is_valid_for spec (str (shown v)) ≡ true
unfolding is_valid_for normalized shown
is_valid_for-str spec null h = h
is_valid_for-str spec (bool true) h = elim (Bool-cases (spec.kind == "boolean")) [
  | inl boolean ↦ rw (boolean, true_is_normal) refl
  | inr variant ↦ rw variant (rw variant at h)
]
is_valid_for-str spec (bool false) h = elim (Bool-cases (spec.kind == "boolean")) [
  | inl boolean ↦ rw (boolean, false_is_normal) refl
  | inr variant ↦ rw variant (rw variant at h)
]
is_valid_for-str spec (int n) h = h
is_valid_for-str spec (str s) h = h

is_allowed-text_entry :
    (site : Site) (e : String × Value)
    → is_allowed site e ≡ true
    → is_allowed site (text_entry (as_text e)) ≡ true
unfolding is_valid_override_value
is_allowed-text_entry site (k, v) h = elim (Option-cases (lookup k site.registry)) [
  | inl unknown ↦ absurd (ground arith)
  | inr (spec, known) ↦ ground (arith, known, is_valid_for-str spec v)
]

-- What was validated passes the validation of the reader, and reads as it was written.
validated_overrides_idem :
    (site : Site) (d : Dict Value)
    → validated_overrides site (map text_entry (validated_overrides site d))
      ≡ validated_overrides site d
unfolding validated_overrides shown
validated_overrides_idem site [] = refl
validated_overrides_idem site (e ∷ d) = elim (Bool-cases (is_allowed site e)) [
  | inl fits ↦
      rw (fits, is_allowed-text_entry site e fits)
        (ap (λ rest. as_text e ∷ rest) (validated_overrides_idem site d))
  | inr fails ↦ rw fails (validated_overrides_idem site d)
]

-- The previews that `set_override_cookie` puts into the cookie are those that `read_override_cookie` gives
-- back to the same user while that user is staff, and to another user it gives none. That the signed text
-- is not empty and loads as what was signed is a hypothesis on the signer.
pub read_override_cookie-set :
    (site : Site) (signer : Signer) (user reader : User) (overrides : Dict Value) (raw : String)
    (validated : Dict String)
    → signer.loads (signer.dumps (preview_payload user.pk (validated_overrides site overrides)))
      ≡ some (preview_payload user.pk (validated_overrides site overrides))
    → non_empty raw ≡ true
    → set_override_cookie site signer user overrides ≡ cookie raw validated
    → read_override_cookie site signer raw (some reader) ≡ (
        if can_use_request_overrides (some reader) && nat_eq user.pk reader.pk
        then validated
        else [])
unfolding set_override_cookie read_override_cookie
read_override_cookie-set site signer user reader overrides raw validated loads full h =
    let kept = validated_overrides site overrides in
    let same_raw : signer.dumps (preview_payload user.pk kept) ≡ raw = ground arith in
    let same_kept : kept ≡ validated = ground arith in
    let loaded : signer.loads raw ≡ some (preview_payload user.pk kept) = rw (← same_raw) loads in
    let again : validated_overrides site (map text_entry kept) ≡ validated =
      validated_overrides_idem site overrides ∙ same_kept in
    ground (arith, h, loaded, again, full, same_raw)
