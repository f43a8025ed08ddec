-- ===== src/Account/Update/Saved.antt =====
-- Every update of a profile saves all the columns that it changed.
use jou_tak_web.Prelude.{
  ℕ, String, ◌≡◌, refl, ◌∙◌, Bool, true, false, ◌&&◌, ◌||◌, not, Option, none, some, List, [], ◌∷◌,
  ◌++◌, arith, ◌==◌, member, is_some, if◌then◌else◌, Bool-cases, inl, inr, sym, ◌⊎◌, subst,
}
use jou_tak_web.Prelude.Text.{strip}
use jou_tak_web.Values.{non_empty}
use jou_tak_web.Account.Profile.{Profile, personalization_complete, normalize_vk_username}
use jou_tak_web.Account.Update.{
  Checked, fine, Draft, is_no_student, apply_vk_username, apply_minecraft_nick,
  apply_minecraft_has_license, apply_is_itmo_student, apply_itmo_isu, mark_completed, save_fields,
}

-- The columns that differ from the row are among the columns to save.
pub record IsCovered (row : Profile) (d : Draft) : Type 0 where
  pub vk : (if member "vk_username" d.1 then d.0.vk_username else row.vk_username) ≡ d.0.vk_username
  pub nick :
      (if member "minecraft_nick" d.1 then d.0.minecraft_nick else row.minecraft_nick)
      ≡ d.0.minecraft_nick
  pub license :
      (if member "minecraft_has_license" d.1
        then d.0.minecraft_has_license
        else row.minecraft_has_license)
      ≡ d.0.minecraft_has_license
  pub student :
      (if member "is_itmo_student" d.1 then d.0.is_itmo_student else row.is_itmo_student)
      ≡ d.0.is_itmo_student
  pub isu : (if member "itmo_isu" d.1 then d.0.itmo_isu else row.itmo_isu) ≡ d.0.itmo_isu
  pub completed :
      (if member "completed_at" d.1 then d.0.completed_at else row.completed_at) ≡ d.0.completed_at
  pub origin : row.personalization_origin ≡ d.0.personalization_origin

member_append :
    (k : String) (xs ys : List String) → member k (xs ++ ys) ≡ (member k xs || member k ys)
member_append k [] ys = refl
member_append k (x ∷ xs) ys = ground (arith, member_append k xs ys)

pub save_fields-IsCovered :
    (row p : Profile) (names : List String) → IsCovered row (p, names) → save_fields names p row ≡ p
unfolding save_fields
save_fields-IsCovered row p names h =
    cc (h.vk, h.nick, h.license, h.student, h.isu, h.completed, h.origin)

-- A column added to the list is written, the others as before.
member_added :
    (k new : String) (names : List String)
    → member k (names ++ (new ∷ [])) ≡ (member k names || k == new)
member_added k new names = ground (arith, member_append k names (new ∷ []))

-- One column after another is set and listed, and the others keep their values.
record IsOneChange (new : String) (p q : Profile) : Type 0 where
  pub vk : (("vk_username" == new) ≡ true) ⊎ (q.vk_username ≡ p.vk_username)
  pub nick : (("minecraft_nick" == new) ≡ true) ⊎ (q.minecraft_nick ≡ p.minecraft_nick)
  pub license :
      (("minecraft_has_license" == new) ≡ true)
      ⊎ (q.minecraft_has_license ≡ p.minecraft_has_license)
  pub student : (("is_itmo_student" == new) ≡ true) ⊎ (q.is_itmo_student ≡ p.is_itmo_student)
  pub isu : (("itmo_isu" == new) ≡ true) ⊎ (q.itmo_isu ≡ p.itmo_isu)
  pub completed : (("completed_at" == new) ≡ true) ⊎ (q.completed_at ≡ p.completed_at)
  pub origin : q.personalization_origin ≡ p.personalization_origin

IsOneChange-vk :
    (p : Profile) (v : String) → IsOneChange "vk_username" p (record p { vk_username = v })
IsOneChange-vk p v = record {
  vk = inl refl;
  nick = inr refl;
  license = inr refl;
  student = inr refl;
  isu = inr refl;
  completed = inr refl;
  origin = refl;
}

IsOneChange-nick :
    (p : Profile) (v : String) → IsOneChange "minecraft_nick" p (record p { minecraft_nick = v })
IsOneChange-nick p v = record {
  vk = inr refl;
  nick = inl refl;
  license = inr refl;
  student = inr refl;
  isu = inr refl;
  completed = inr refl;
  origin = refl;
}

IsOneChange-license :
    (p : Profile) (v : Option Bool)
    → IsOneChange "minecraft_has_license" p (record p { minecraft_has_license = v })
IsOneChange-license p v = record {
  vk = inr refl;
  nick = inr refl;
  license = inl refl;
  student = inr refl;
  isu = inr refl;
  completed = inr refl;
  origin = refl;
}

IsOneChange-student :
    (p : Profile) (v : Option Bool)
    → IsOneChange "is_itmo_student" p (record p { is_itmo_student = v })
IsOneChange-student p v = record {
  vk = inr refl;
  nick = inr refl;
  license = inr refl;
  student = inl refl;
  isu = inr refl;
  completed = inr refl;
  origin = refl;
}

IsOneChange-isu :
    (p : Profile) (v : Option String) → IsOneChange "itmo_isu" p (record p { itmo_isu = v })
IsOneChange-isu p v = record {
  vk = inr refl;
  nick = inr refl;
  license = inr refl;
  student = inr refl;
  isu = inl refl;
  completed = inr refl;
  origin = refl;
}

IsOneChange-completed :
    (p : Profile) (v : Option ℕ) → IsOneChange "completed_at" p (record p { completed_at = v })
IsOneChange-completed p v = record {
  vk = inr refl;
  nick = inr refl;
  license = inr refl;
  student = inr refl;
  isu = inr refl;
  completed = inl refl;
  origin = refl;
}

pub fine_inj : (d e : Draft) → ◌≡◌ {A = Checked Draft} (fine d) (fine e) → d ≡ e
fine_inj d e r = cc

module _ (row : Profile) where
  IsCovered-IsOneChange :
      (new : String) (p q : Profile) (names : List String)
      → IsOneChange new p q
      → IsCovered row (p, names)
      → IsCovered row (q, names ++ (new ∷ []))
  IsCovered-IsOneChange new p q names s h =
      let added = λ (k : String). member_added k new names in
      record {
        vk = ground (arith, added "vk_username", h.vk, s.vk);
        nick = ground (arith, added "minecraft_nick", h.nick, s.nick);
        license = ground (arith, added "minecraft_has_license", h.license, s.license);
        student = ground (arith, added "is_itmo_student", h.student, s.student);
        isu = ground (arith, added "itmo_isu", h.isu, s.isu);
        completed = ground (arith, added "completed_at", h.completed, s.completed);
        origin = h.origin ∙ sym s.origin;
      }

  -- Each field's step keeps the draft covered.
  pub IsCovered-apply_vk_username :
      (raw : String) (d e : Draft)
      → apply_vk_username raw d ≡ fine e
      → IsCovered row d
      → IsCovered row e
  unfolding apply_vk_username
  IsCovered-apply_vk_username raw (p, names) e r h =
      subst (IsCovered row) (fine_inj _ e (ground arith)) (
        IsCovered-IsOneChange "vk_username" p _ names (IsOneChange-vk p (normalize_vk_username raw))
          h)

  pub IsCovered-apply_minecraft_nick :
      (raw : String) (d e : Draft)
      → apply_minecraft_nick raw d ≡ fine e
      → IsCovered row d
      → IsCovered row e
  unfolding apply_minecraft_nick
  IsCovered-apply_minecraft_nick raw (p, names) e r h =
      subst (IsCovered row) (fine_inj _ e (ground arith))
        (IsCovered-IsOneChange "minecraft_nick" p _ names (IsOneChange-nick p (strip raw)) h)

  pub IsCovered-apply_minecraft_has_license :
      (b : Bool) (d e : Draft)
      → apply_minecraft_has_license b d ≡ fine e
      → IsCovered row d
      → IsCovered row e
  unfolding apply_minecraft_has_license
  IsCovered-apply_minecraft_has_license b (p, names) e r h =
      subst (IsCovered row) (fine_inj _ e r)
        (IsCovered-IsOneChange "minecraft_has_license" p _ names (IsOneChange-license p (some b)) h)

  pub IsCovered-apply_is_itmo_student :
      (b : Bool) (d e : Draft)
      → apply_is_itmo_student b d ≡ fine e
      → IsCovered row d
      → IsCovered row e
  unfolding apply_is_itmo_student
  IsCovered-apply_is_itmo_student true (p, names) e r h =
      subst (IsCovered row) (fine_inj _ e r)
        (IsCovered-IsOneChange "is_itmo_student" p _ names (IsOneChange-student p (some true)) h)
  IsCovered-apply_is_itmo_student false (p, names) e r h =
      let student =
        IsCovered-IsOneChange "is_itmo_student" p _ names (IsOneChange-student p (some false)) h in
      subst (IsCovered row) (fine_inj _ e r) (
        IsCovered-IsOneChange "itmo_isu" (record p { is_itmo_student = some false }) _ _
          (IsOneChange-isu _ none) student)

  pub IsCovered-apply_itmo_isu :
      (is_digit : ℕ → Bool) (raw : String) (d e : Draft)
      → apply_itmo_isu is_digit raw d ≡ fine e
      → IsCovered row d
      → IsCovered row e
  unfolding apply_itmo_isu
  IsCovered-apply_itmo_isu is_digit raw (p, names) e r h =
      let set =
        λ (v : Option String). IsCovered-IsOneChange "itmo_isu" p _ names (IsOneChange-isu p v) h in
      elim (Bool-cases (is_no_student p.is_itmo_student)) [
        | inl other ↦ subst (IsCovered row) (fine_inj _ e (rw other at r)) (set none)
        | inr student ↦
            subst (IsCovered row) (fine_inj _ e (ground arith))
              (set (if non_empty (strip raw) then some (strip raw) else none))
      ]

  pub IsCovered-mark_completed :
      (now : ℕ) (d : Draft) → IsCovered row d → IsCovered row (mark_completed now d)
  unfolding mark_completed
  IsCovered-mark_completed now (p, names) h =
      elim (Bool-cases ((personalization_complete p).0 && not (is_some p.completed_at))) [
        | inl done ↦
            rw done (
              IsCovered-IsOneChange "completed_at" p _ names (IsOneChange-completed p (some now)) h)
        | inr same ↦ rw same h
      ]
