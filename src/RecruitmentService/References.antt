-- ===== src/RecruitmentService/References.antt =====
-- What a new opportunity refers to.
use placement_assistant.Prelude.{
  ℕ, true, false, not, ◌≡◌, refl, sym, ap, ◌∙◌, inl, inr, some, [], ◌∷◌, ◌++◌, keep, Has, Has-keep,
  Has-map, keep-passes, Result, ok, continue-inversion, or_raise-inversion, raise_if-inversion,
  Bool-cases, arith, ◌==◌, ==_iff,
}
use placement_assistant.Database.{
  Db, Principal, Company, CompanyRole, Drive, Opportunity, one_or_none-some,
}
use placement_assistant.Repositories.{Table, in_tenant, get_by_id, insert}
use placement_assistant.Repositories.Tables.{companies, roles, drives}
use placement_assistant.RecruitmentService.{
  OpportunityDraft, opportunity_of, slot_taken, add_opportunity, with_drive, with_role,
  with_company, create_opportunity,
}

-- A row that `get_by_id` finds, at the place where it is read.
module _ {A : Type 0} (table : Table A) (institution_id id : ℕ) where
  abbrev IsRow : Db → A → Type 0
  IsRow db r =
      Has (λ x. x ≡ r) (table.rows db)
      × (table.institution_of r ≡ institution_id)
      × (table.id_of r ≡ id)

  in_tenant-fields :
      (r : A)
      → in_tenant table institution_id id r ≡ true
      → (table.institution_of r ≡ institution_id) × (table.id_of r ≡ id)
  unfolding in_tenant
  in_tenant-fields r h = ground arith

  get_by_id-IsRow :
      (db : Db) (r : A) → (get_by_id table institution_id id db).0 ≡ ok (some r) → IsRow db r
  unfolding get_by_id
  get_by_id-IsRow db r h =
      let kept = one_or_none-some _ r h in
      let there : Has (λ x. x ≡ r) (keep (in_tenant table institution_id id) (table.rows db)) =
        rw kept (inl refl) in
      let (place, named) =
        in_tenant-fields r
          (rw kept at (keep-passes (in_tenant table institution_id id) (table.rows db))).0 in
      (
        Has-map (λ x. (x ≡ r) × (in_tenant table institution_id id x ≡ true)) (λ x. x ≡ r)
            (λ x both. both.0) (table.rows db)
            (Has-keep (λ x. x ≡ r) (in_tenant table institution_id id) (table.rows db) there),
        place,
        named,
      )

module _ (p : Principal) (new_id company_id : ℕ) (given : OpportunityDraft) where
  -- The rows that an opportunity names, all of the caller's institution and of one company.
  pub record IsReferenced (db : Db) (o : Opportunity) (db' : Db) : Type 0 where
    pub company : Company
    pub company_row : IsRow companies p.institution_id company_id db company
    pub role : CompanyRole
    pub role_row : IsRow roles p.institution_id given.role_id db role
    pub role_company : role.company_id ≡ company_id
    pub drive : Drive
    pub drive_row : IsRow drives p.institution_id given.drive_id db drive
    pub drive_company : drive.company_id ≡ company_id
    pub names :
        (o.institution_id ≡ p.institution_id)
        × (o.company_id ≡ company_id)
        × (o.role_id ≡ given.role_id)
        × (o.drive_id ≡ given.drive_id)
    pub added : db'.opportunities ≡ db.opportunities ++ o ∷ []

  same_company : (a b : ℕ) → not (a == b) ≡ false → a ≡ b
  same_company a b h = ground (arith, ==_iff a b)

  add_opportunity-inversion :
      (company : Company) (role : CompanyRole) (drive : Drive) (o : Opportunity) (db db' : Db)
      → add_opportunity p new_id given company role drive db ≡ (ok o, db')
      → (o.institution_id ≡ p.institution_id)
        × (o.company_id ≡ company.id)
        × (o.role_id ≡ role.id)
        × (o.drive_id ≡ drive.id)
        × (db'.opportunities ≡ db.opportunities ++ o ∷ [])
  unfolding add_opportunity insert
  add_opportunity-inversion company role drive o db db' h =
      elim (Bool-cases (slot_taken p role drive db)) [
        | inl taken ↦ cc (rw taken at h)
        | inr free ↦
            let wrote = rw free at h in
            let same : opportunity_of p new_id given company role drive ≡ o = cc wrote in
            let rows : db.opportunities ++ opportunity_of p new_id given company role drive ∷ []
                ≡ db'.opportunities =
              ap (λ (x : Result Opportunity × Db). x.1.opportunities) wrote in
            (
              rw (sym same) refl,
              rw (sym same) refl,
              rw (sym same) refl,
              rw (sym same) refl,
              sym rows ∙ rw same refl,
            )
      ]

  -- An opportunity that was created is the one row that was added. It names the company that the
  -- caller gave, and the role and the drive that the caller gave, which are rows of the caller's
  -- institution and belong to that company.
  pub create_opportunity-IsReferenced :
      (o : Opportunity) (db db' : Db)
      → create_opportunity p new_id company_id given db ≡ (ok o, db')
      → IsReferenced db o db'
  unfolding create_opportunity with_company with_role with_drive get_by_id
  create_opportunity-IsReferenced o db db' h =
      let (found, read_company, h1) =
        continue-inversion (get_by_id companies p.institution_id company_id db).0
          (with_company p new_id given) db db' o h in
      let (company, some_company, h2) = or_raise-inversion _ found _ db db' o h1 in
      let (found_role, read_role, h3) =
        continue-inversion (get_by_id roles p.institution_id given.role_id db).0
          (with_role p new_id given company) db db' o h2 in
      let (role, some_role, h4) = or_raise-inversion _ found_role _ db db' o h3 in
      let (of_role, h5) =
        raise_if-inversion (not (role.company_id == company.id)) _ _ db db' o h4 in
      let (found_drive, read_drive, h6) =
        continue-inversion (get_by_id drives p.institution_id given.drive_id db).0
          (with_drive p new_id given company role) db db' o h5 in
      let (drive, some_drive, h7) = or_raise-inversion _ found_drive _ db db' o h6 in
      let (of_drive, h8) =
        raise_if-inversion (not (drive.company_id == company.id)) _ _ db db' o h7 in
      let made = add_opportunity-inversion company role drive o db db' h8 in
      let company_row =
        get_by_id-IsRow companies p.institution_id company_id db company
          (rw some_company at read_company) in
      let role_row =
        get_by_id-IsRow roles p.institution_id given.role_id db role (rw some_role at read_role) in
      let drive_row =
        get_by_id-IsRow drives p.institution_id given.drive_id db drive
          (rw some_drive at read_drive) in
      record {
        company = company;
        company_row = company_row;
        role = role;
        role_row = role_row;
        role_company = same_company role.company_id company.id of_role ∙ company_row.2;
        drive = drive;
        drive_row = drive_row;
        drive_company = same_company drive.company_id company.id of_drive ∙ company_row.2;
        names = (made.0, made.1 ∙ company_row.2, made.2 ∙ role_row.2, made.3 ∙ drive_row.2);
        added = made.4;
      }
