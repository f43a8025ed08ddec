-- ===== src/Account/Update/Valid.antt =====
-- Every update of a profile leaves a valid row, saved as it is returned.
use jou_tak_web.Prelude.{
  ℕ, String, ◌≡◌, refl, ◌∙◌, Bool, true, ◌&&◌, ◌||◌, not, Option, none, some, [], arith, is_some,
  inl, inr, sym, ap, ◌⊎◌, subst,
}
use jou_tak_web.Values.{non_empty}
use jou_tak_web.Account.Profile.{
  Profile, personalization_complete, missing_personalization_fields, is_vk_username,
  is_minecraft_nick, is_itmo_isu,
}
use jou_tak_web.Account.Update.{
  Checked, fine, refused, and_then, Draft, given, Fields, Names, Rules, is_no_student,
  profile_or_fresh, apply_vk_username, apply_minecraft_nick, apply_minecraft_has_license,
  apply_is_itmo_student, apply_itmo_isu, apply_fields, mark_completed, save_fields, update_name,
  update_profile_fields,
}
use jou_tak_web.Account.Update.Saved.{
  IsCovered, fine_inj, save_fields-IsCovered, IsCovered-apply_vk_username,
  IsCovered-apply_minecraft_nick, IsCovered-apply_minecraft_has_license,
  IsCovered-apply_is_itmo_student, IsCovered-apply_itmo_isu, IsCovered-mark_completed,
}

abbrev is_valid_isu : (ℕ → Bool) → Option String → Bool
is_valid_isu is_digit none = true
is_valid_isu is_digit (some s) = is_itmo_isu is_digit s

-- Each text of the profile is empty or has its form, and who is no student has no student number.
abbrev pub is_valid_profile : (ℕ → Bool) → Profile → Bool
is_valid_profile is_digit p =
    (not (non_empty p.vk_username) || is_vk_username p.vk_username)
    && (not (non_empty p.minecraft_nick) || is_minecraft_nick p.minecraft_nick)
    && is_valid_isu is_digit p.itmo_isu
    && not (is_no_student p.is_itmo_student && is_some p.itmo_isu)

-- What every step keeps: the draft is covered, its profile valid, and a completion time that was there
-- before stays.
record IsKept (is_digit : ℕ → Bool) (row : Profile) (d : Draft) : Type 0 where
  pub covered : IsCovered row d
  pub valid : is_valid_profile is_digit d.0 ≡ true
  pub time : d.0.completed_at ≡ row.completed_at

and_then_inv {ℓ κ} :
    {A : Type ℓ} {B : Type κ} (c : Checked A) (k : A → Checked B) (b : B)
    → and_then c k ≡ fine b
    → (a : A) × (c ≡ fine a) × (k a ≡ fine b)
and_then_inv (fine a) k b h = (a, refl, h)
and_then_inv (refused e) k b h = cc

module _ (is_digit : ℕ → Bool) (row : Profile) where
  abbrev Keeps {ℓ} : {A : Type ℓ} → (A → Draft → Checked Draft) → Type ℓ
  Keeps {A = A} apply =
      (a : A) (d e : Draft) → apply a d ≡ fine e → IsKept is_digit row d → IsKept is_digit row e

  given-Keeps {ℓ} :
      {A : Type ℓ} (o : Option A) (apply : A → Draft → Checked Draft) (d e : Draft)
      → Keeps apply
      → given o apply d ≡ fine e
      → IsKept is_digit row d
      → IsKept is_digit row e
  given-Keeps none apply d e k r h = subst (IsKept is_digit row) (fine_inj d e r) h
  given-Keeps (some a) apply d e k r h = k a d e r h

  Keeps-vk_username : Keeps apply_vk_username
  unfolding apply_vk_username
  Keeps-vk_username raw d e r h = record {
    covered = IsCovered-apply_vk_username row raw d e r h.covered;
    valid = ground (arith, h.valid);
    time = ground (arith, h.time);
  }

  Keeps-minecraft_nick : Keeps apply_minecraft_nick
  unfolding apply_minecraft_nick
  Keeps-minecraft_nick raw d e r h = record {
    covered = IsCovered-apply_minecraft_nick row raw d e r h.covered;
    valid = ground (arith, h.valid);
    time = ground (arith, h.time);
  }

  Keeps-minecraft_has_license : Keeps apply_minecraft_has_license
  unfolding apply_minecraft_has_license
  Keeps-minecraft_has_license b d e r h = record {
    covered = IsCovered-apply_minecraft_has_license row b d e r h.covered;
    valid = ground (arith, h.valid);
    time = ground (arith, h.time);
  }

  Keeps-is_itmo_student : Keeps apply_is_itmo_student
  unfolding apply_is_itmo_student
  Keeps-is_itmo_student b d e r h = record {
    covered = IsCovered-apply_is_itmo_student row b d e r h.covered;
    valid = ground (arith, h.valid);
    time = ground (arith, h.time);
  }

  Keeps-itmo_isu : Keeps (apply_itmo_isu is_digit)
  unfolding apply_itmo_isu
  Keeps-itmo_isu raw d e r h = record {
    covered = IsCovered-apply_itmo_isu row is_digit raw d e r h.covered;
    valid = ground (arith, h.valid);
    time = ground (arith, h.time);
  }

  IsKept-apply_fields :
      (fields : Fields) (d e : Draft)
      → apply_fields is_digit fields d ≡ fine e
      → IsKept is_digit row d
      → IsKept is_digit row e
  unfolding apply_fields
  IsKept-apply_fields fields d e r h =
      let (d1, r1, k1) = and_then_inv (given fields.vk_username apply_vk_username d) _ e r in
      let (d2, r2, k2) =
        and_then_inv (given fields.minecraft_nick apply_minecraft_nick d1) _ e k1 in
      let (d3, r3, k3) =
        and_then_inv (given fields.minecraft_has_license apply_minecraft_has_license d2) _ e k2 in
      let (d4, r4, k4) =
        and_then_inv (given fields.is_itmo_student apply_is_itmo_student d3) _ e k3 in
      let h1 = given-Keeps fields.vk_username apply_vk_username d d1 Keeps-vk_username r1 h in
      let h2 =
        given-Keeps fields.minecraft_nick apply_minecraft_nick d1 d2 Keeps-minecraft_nick r2 h1 in
      let h3 =
        given-Keeps fields.minecraft_has_license apply_minecraft_has_license d2 d3
          Keeps-minecraft_has_license r3 h2 in
      let h4 =
        given-Keeps fields.is_itmo_student apply_is_itmo_student d3 d4 Keeps-is_itmo_student r4
          h3 in
      given-Keeps fields.itmo_isu (apply_itmo_isu is_digit) d4 e Keeps-itmo_isu k4 h4

-- What the last step leaves, beside the covered columns.
mark_completed-cases :
    (is_digit : ℕ → Bool) (now : ℕ) (d : Draft)
    → (is_valid_profile is_digit (mark_completed now d).0 ≡ is_valid_profile is_digit d.0)
      × ((not (personalization_complete (mark_completed now d).0).0
            || is_some (mark_completed now d).0.completed_at)
          ≡ true)
      × ((d.0.completed_at ≡ none) ⊎ ((mark_completed now d).0.completed_at ≡ d.0.completed_at))
unfolding mark_completed personalization_complete missing_personalization_fields
mark_completed-cases is_digit now (p, names) = (ground arith, ground arith, ground arith)

IsCovered-self : (row : Profile) → IsCovered row (row, [])
IsCovered-self row = record {
  vk = refl;
  nick = refl;
  license = refl;
  student = refl;
  isu = refl;
  completed = refl;
  origin = refl;
}

-- An update that succeeds on a valid profile saves the profile that it returns, whole. That profile is
-- valid: each text is empty or has its form, and a user who is marked as no student has no student number.
-- If nothing is missing in it, it has a completion time, and one that was there before is not changed.
pub update_profile_fields_lem :
    (rules : Rules) (now : ℕ) (first last : Option String) (fields : Fields) (names named : Names)
    (stored : Option Profile) (row p : Profile)
    → is_valid_profile rules.is_digit (profile_or_fresh stored) ≡ true
    → update_profile_fields rules now first last fields names stored ≡ fine (named, row, p)
    → (row ≡ p)
      × (is_valid_profile rules.is_digit p ≡ true)
      × ((not (personalization_complete p).0 || is_some p.completed_at) ≡ true)
      × (((profile_or_fresh stored).completed_at ≡ none)
          ⊎ (p.completed_at ≡ (profile_or_fresh stored).completed_at))
unfolding update_profile_fields
update_profile_fields_lem rules now first last fields names named stored row p valid h =
    let old = profile_or_fresh stored in
    let (given_names, r1, k1) =
      and_then_inv (update_name rules.max_length first last names) _ (named, row, p) h in
    let (d, r2, k2) =
      and_then_inv (apply_fields rules.is_digit fields (old, [])) _ (named, row, p) k1 in
    let kept =
      IsKept-apply_fields rules.is_digit old fields (old, []) d r2
        (record { covered = IsCovered-self old; valid = valid; time = refl }) in
    let (same_valid, timed, kept_time) = mark_completed-cases rules.is_digit now d in
    let covered = IsCovered-mark_completed old now d kept.covered in
    let saved =
      save_fields-IsCovered old (mark_completed now d).0 (mark_completed now d).1 covered in
    let same_p : (mark_completed now d).0 ≡ p = cc in
    let same_row : save_fields (mark_completed now d).1 (mark_completed now d).0 old ≡ row = cc in
    (
      sym same_row ∙ saved ∙ same_p,
      ap (is_valid_profile rules.is_digit) (sym same_p) ∙ same_valid ∙ kept.valid,
      rw (← same_p) timed,
      elim kept_time [
        | inl gone ↦ inl (sym kept.time ∙ gone)
        | inr same ↦ inr (ap (λ (q : Profile). q.completed_at) (sym same_p) ∙ same ∙ kept.time)
      ],
    )
