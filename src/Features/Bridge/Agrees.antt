-- ===== src/Features/Bridge/Agrees.antt =====
-- The provider agrees with the direct evaluation.

use jou_tak_web.Prelude.{
  ℕ, String, ◌≡◌, refl, sym, ap, ◌∙◌, subst, Bool, true, false, Option, none, some, List, [], ◌∷◌,
  map, ◌==◌, arith, is_some, if-true, if-false, if-cases, some-injective, Bool-cases, inl, inr,
}
use jou_tak_web.Prelude.Assoc.{Dict, lookup}
use jou_tak_web.Prelude.Text.{strip}
use jou_tak_web.Values.{Value, str, int, bool, null, shown, non_empty, int_of}
use jou_tak_web.Registry.{Site, Spec}
use jou_tak_web.Features.Model.{User, Context, Feature, Group, State, Assignment}
use jou_tak_web.Features.Preview.{Signer}
use jou_tak_web.Features.Evaluate.{
  active_definition, registry_default, evaluate_flag, flag_from, default_flag,
}
use jou_tak_web.Features.Bridge.{
  to_openfeature_context, from_openfeature_context, Details, resolve_flag_details, resolve_details,
  get_feature_spec, evaluated, resolved, resolved_spec, spec_of, default_spec, registry_value,
  with_default, kind_of, text_entry, shown_entry, text_if, text_or_empty,
}
use jou_tak_web.Features.Request.{
  IdSigner, extract_or_create_anonymous_id, is_uuid_hex, id_or, build_context,
  resolve_optional_user,
}

-- A context as `build_context` makes it: an authenticated user or none, an anonymous id, and the overrides of
-- the request.
pub record IsRequestContext (c : Context) : Type 0 where
  pub id : String
  pub id_eq : c.anonymous_id ≡ some id
  pub filled : non_empty id ≡ true
  pub given : Dict String
  pub overrides_eq : c.request_overrides ≡ some given
  pub authenticated : (u : User) → c.user ≡ some u → u.is_authenticated ≡ true

shown-text : (d : Dict String) → map shown_entry (map text_entry d) ≡ d
unfolding shown
shown-text [] = refl
shown-text (e ∷ d) = ap (λ rest. e ∷ rest) (shown-text d)

text_or_empty-text : (s : String) → text_or_empty (str s) ≡ s
unfolding shown
text_or_empty-text String.[] = refl
text_or_empty-text (String.◌∷◌ c s) = refl

text_if-text : (s : String) → non_empty s ≡ true → text_if (str s) ≡ some s
unfolding shown
text_if-text String.[] h = cc
text_if-text (String.◌∷◌ c s) h = refl

abbrev wrap : Option User → Option String → String → Option (Dict String) → Context
wrap u id page given = record {
  user = u;
  anonymous_id = id;
  page = page;
  request_overrides = given;
}

rebuilt :
    (u : Option User) (id page : String) (given : Dict String)
    → non_empty id ≡ true
    → some (
        wrap u
          (text_if (str id))
          (text_or_empty (str page))
          (some (map shown_entry (map text_entry given))))
      ≡ some (wrap u (some id) page (some given))
rebuilt u id page given filled =
    let ids = text_if-text id filled in
    let pages = text_or_empty-text page in let overrides = shown-text given in cc

abbrev context_of : Option User → String → String → Dict String → Context
context_of u id page given = record {
  user = u;
  anonymous_id = some id;
  page = page;
  request_overrides = some given;
}

abbrev signed_in : ℕ → Bool → User
signed_in pk staff = record { pk = pk; is_staff = staff; is_authenticated = true }

roundtrip-none :
    (id page : String) (given : Dict String)
    → non_empty id ≡ true
    → from_openfeature_context (some (to_openfeature_context (context_of none id page given)))
      ≡ some (context_of none id page given)
unfolding from_openfeature_context to_openfeature_context
roundtrip-none id page given filled = rebuilt none id page given filled

roundtrip-some :
    (pk : ℕ) (staff : Bool) (id page : String) (given : Dict String)
    → non_empty id ≡ true
    → from_openfeature_context
        (some (to_openfeature_context (context_of (some (signed_in pk staff)) id page given)))
      ≡ some (context_of (some (signed_in pk staff)) id page given)
unfolding from_openfeature_context to_openfeature_context int_of
roundtrip-some pk staff id page given filled =
    rebuilt (some (signed_in pk staff)) id page given filled

signed_in-eq : (u : User) → u.is_authenticated ≡ true → u ≡ signed_in u.pk u.is_staff
signed_in-eq u h = ap (λ b. record u { is_authenticated = b }) h

from_to :
    (c : Context) (u : Option User) (id : String) (given : Dict String)
    → non_empty id ≡ true
    → ((v : User) → u ≡ some v → v.is_authenticated ≡ true)
    → from_openfeature_context (some (to_openfeature_context (context_of u id c.page given)))
      ≡ some (context_of u id c.page given)
from_to c none id given filled authenticated = roundtrip-none id c.page given filled
from_to c (some v) id given filled authenticated =
    subst
      (λ w.
        from_openfeature_context
          (some (to_openfeature_context (context_of (some w) id c.page given)))
        ≡ some (context_of (some w) id c.page given))
      (sym (signed_in-eq v (authenticated v refl)))
      (roundtrip-some v.pk v.is_staff id c.page given filled)

-- A context of a request survives the way through the library's form unchanged.
pub from_openfeature_context-to :
    (c : Context)
    → IsRequestContext c
    → from_openfeature_context (some (to_openfeature_context c)) ≡ some c
from_openfeature_context-to c r =
    let same : c ≡ context_of c.user r.id c.page r.given =
      ap (λ a. record c { anonymous_id = a }) r.id_eq
      ∙ ap (λ o. record c { anonymous_id = some r.id; request_overrides = o }) r.overrides_eq in
    subst (λ d. from_openfeature_context (some (to_openfeature_context d)) ≡ some d) (sym same)
      (from_to c c.user r.id r.given r.filled r.authenticated)

abbrev pub fresh_state : List Assignment → State
fresh_state rows = record { assignments = rows; required_group_ids = [] }

module _ (site : Site) (groups : List Group) (digest : String → ℕ) (features : List Feature) where
  evaluated-agrees :
      (f : Feature) (c : Context) (rows : List Assignment) (d : Details) (later : State)
      (o : Option Context)
      → o ≡ some c
      → evaluated site groups digest f (fresh_state rows) o ≡ some (d, later)
      → flag_from site groups digest (some f) f.key c (fresh_state rows) ≡ some (d.value, later)
  evaluated-agrees f c rows d later o same h =
      let run : evaluated site groups digest f (fresh_state rows) (some c) ≡ some (d, later) =
        subst (λ x. evaluated site groups digest f (fresh_state rows) x ≡ some (d, later)) same h in
      ap (λ p. some (p.0.value, p.1)) (some-injective _ _ run)

  registry-agrees :
      (kind key : String) (given : Value) (c : Context) (st : State) (d : Details) (later : State)
      (entry : Option Spec) (value : Option (Option Value))
      → is_some d.error_code ≡ false
      → resolved_spec
          (λ spec. with_default st (registry_value spec.kind spec.default_value entry value))
          kind
          given
          st
          (default_spec key entry value)
        ≡ some (d, later)
      → default_flag value st ≡ some (d.value, later)
  registry-agrees kind key given c st d later entry none clean h = cc
  registry-agrees kind key given c st d later entry (some none) clean h =
      let bad = ap (λ p. is_some p.0.error_code) (some-injective _ _ h) in grind (arith, bad, clean)
  registry-agrees kind key given c st d later none (some (some v)) clean h =
      let bad = ap (λ p. is_some p.0.error_code) (some-injective _ _ h) in grind (arith, bad, clean)
  registry-agrees kind key given c st d later (some spec) (some (some v)) clean h =
      elim (Bool-cases (kind_of spec.kind == kind)) [
        | inl same ↦
            let run = if-true (kind_of spec.kind == kind) _ _ _ same h in
            let plain : registry_value (kind_of spec.kind) v (some spec) (some (some v)) ≡ some v =
              if-cases (λ x. x ≡ some v) (kind_of spec.kind == kind_of spec.kind) (some v) (some v)
                (λ own. refl) (λ other. refl) in
            let given_v = subst (λ x. with_default st x ≡ some (d, later)) plain run in
            ap (λ p. some (p.0.value, p.1)) (some-injective _ _ given_v)
        | inr differs ↦
            let bad =
              ap (λ p. is_some p.0.error_code)
                (some-injective _ _ (if-false (kind_of spec.kind == kind) _ _ _ differs h)) in
            grind (arith, bad, clean)
      ]

  definition-agrees :
      (kind key : String) (given : Value) (c : Context) (rows : List Assignment) (d : Details)
      (later : State) (o : Option Feature)
      → IsRequestContext c
      → is_some d.error_code ≡ false
      → resolved_spec
          (λ spec.
            resolved site groups digest key spec.kind spec.default_value
              (some (to_openfeature_context c))
              (fresh_state rows)
              o)
          kind
          given
          (fresh_state rows)
          (spec_of site key (registry_default site key) o)
        ≡ some (d, later)
      → flag_from site groups digest o key c (fresh_state rows) ≡ some (d.value, later)
  definition-agrees kind key given c rows d later (some f) made clean h =
      elim (Bool-cases (f.kind == kind)) [
        | inl same ↦
            evaluated-agrees f c rows d later
              (from_openfeature_context (some (to_openfeature_context c)))
              (from_openfeature_context-to c made) (if-true (f.kind == kind) _ _ _ same h)
        | inr differs ↦
            let bad =
              ap (λ p. is_some p.0.error_code)
                (some-injective _ _ (if-false (f.kind == kind) _ _ _ differs h)) in
            grind (arith, bad, clean)
      ]
  definition-agrees kind key given c rows d later none made clean h =
      registry-agrees kind key given c (fresh_state rows) d later (lookup key site.registry)
        (registry_default site key) clean h

  -- For the context of a request, a flag that the provider resolves without an error has the value that
  -- `evaluate_many` gives it, and the evaluation leaves the same rows.
  pub resolve_details-agrees :
      (kind key : String) (given : Value) (c : Context) (rows : List Assignment) (d : Details)
      (later : State)
      → IsRequestContext c
      → is_some d.error_code ≡ false
      → resolve_details site groups digest features kind key given
          (some (to_openfeature_context c))
          (fresh_state rows)
        ≡ some (d, later)
      → evaluate_flag site groups digest features key c (fresh_state rows) ≡ some (d.value, later)
  unfolding resolve_details get_feature_spec resolve_flag_details evaluate_flag
  resolve_details-agrees kind key given c rows d later made clean h =
      definition-agrees kind key given c rows d later (active_definition features key) made clean h

uuid-filled : (s : String) → is_uuid_hex s ≡ true → non_empty s ≡ true
unfolding is_uuid_hex
uuid-filled String.[] h = cc
uuid-filled (String.◌∷◌ c s) h = refl

id_or-filled :
    (fresh : String) (v : Option Value)
    → non_empty fresh ≡ true
    → non_empty (id_or fresh v).0 ≡ true
id_or-filled fresh none h = h
id_or-filled fresh (some null) h = h
id_or-filled fresh (some (bool b)) h = h
id_or-filled fresh (some (int n)) h = h
id_or-filled fresh (some (str s)) h = elim (Bool-cases (is_uuid_hex s)) [
  | inl hex ↦ ground (arith, hex, uuid-filled s hex)
  | inr other ↦ ground (arith, other, h)
]

extracted-filled :
    (ids : IdSigner) (fresh cookie : String)
    → non_empty fresh ≡ true
    → non_empty (extract_or_create_anonymous_id ids fresh cookie).0 ≡ true
unfolding extract_or_create_anonymous_id
extracted-filled ids fresh cookie h =
    if-cases (λ x. non_empty x.0 ≡ true) (non_empty (strip cookie))
      (id_or fresh (ids.loads_id (strip cookie))) (fresh, true)
      (λ given. id_or-filled fresh (ids.loads_id (strip cookie)) h) (λ none_. h)

optional-authenticated :
    (by_token own : Option User) (u : User)
    → ((v : User) → by_token ≡ some v → v.is_authenticated ≡ true)
    → resolve_optional_user by_token own ≡ some u
    → u.is_authenticated ≡ true
unfolding resolve_optional_user
optional-authenticated (some v) own u known h = known u h
optional-authenticated none none u known h = cc
optional-authenticated none (some w) u known h = ground (arith, h)

-- `build_context` makes contexts of this form, with the cookies of the request whatever they hold.
pub build_context-IsRequestContext :
    (site : Site) (signer : Signer) (ids : IdSigner) (by_token own : Option User)
    (fresh id_cookie override_cookie page : String)
    → ((u : User) → by_token ≡ some u → u.is_authenticated ≡ true)
    → non_empty fresh ≡ true
    → IsRequestContext
        (build_context site signer ids by_token own fresh id_cookie override_cookie page).0
unfolding build_context
build_context-IsRequestContext site signer ids by_token own fresh id_cookie override_cookie page
      known filled =
    record {
      id = (extract_or_create_anonymous_id ids fresh id_cookie).0;
      id_eq = refl;
      filled = extracted-filled ids fresh id_cookie filled;
      given = _;
      overrides_eq = refl;
      authenticated = λ u h. optional-authenticated by_token own u known h;
    }

-- For the context that `build_context` makes of a request, a flag that the provider resolves without an error
-- has the value that `evaluate_many` gives it directly, and the evaluation leaves the same rows.
pub build_context-agrees :
    (site : Site) (groups : List Group) (digest : String → ℕ) (features : List Feature)
    (signer : Signer) (ids : IdSigner) (by_token own : Option User)
    (fresh id_cookie override_cookie page : String) (kind key : String) (given : Value)
    (rows : List Assignment) (d : Details) (later : State)
    → ((u : User) → by_token ≡ some u → u.is_authenticated ≡ true)
    → non_empty fresh ≡ true
    → is_some d.error_code ≡ false
    → resolve_details site groups digest features kind key given
        (some (
          to_openfeature_context
            (build_context site signer ids by_token own fresh id_cookie override_cookie page).0))
        (fresh_state rows)
      ≡ some (d, later)
    → evaluate_flag site groups digest features key
        (build_context site signer ids by_token own fresh id_cookie override_cookie page).0
        (fresh_state rows)
      ≡ some (d.value, later)
build_context-agrees site groups digest features signer ids by_token own fresh id_cookie
      override_cookie page kind key given rows d later known filled clean h =
    resolve_details-agrees site groups digest features kind key given
      (build_context site signer ids by_token own fresh id_cookie override_cookie page).0 rows d
      later
      (build_context-IsRequestContext site signer ids by_token own fresh id_cookie override_cookie
        page known filled)
      clean h
