-- ===== src/RequirementService/Frozen.antt =====
-- A published version of a requirement stays as it is.
use placement_assistant.Prelude.{
  ℕ, Bool, true, ◌≡◌, refl, sym, ap, ◌∙◌, inl, inr, Option, none, some, [], ◌∷◌, keep, keep-passes,
  All, All-filtered, arith, Error, keep-replace, replace, Result, ok, err, http_detail, continue,
  or_raise, Bool-cases, ◌==◌, ==_iff,
}
use placement_assistant.Database.{
  Criterion, Db, Principal, RequirementVersion, one_or_none, one_or_none-some,
}
use placement_assistant.Repositories.{in_tenant, get_by_id}
use placement_assistant.Repositories.Tables.{requirement_versions, criteria}
use placement_assistant.RequirementService.{
  MemberDraft, add_requirement_member, published_row, CriterionDraft, is_published, found_version,
  add_criterion, publish, publish_at, publish_requirement_version,
}

module _ (p : Principal) (version_id : ℕ) where
  abbrev own : RequirementVersion → Bool
  own = in_tenant requirement_versions p.institution_id version_id

  -- The institution has one version of that id, which is `v`.
  abbrev pub IsVersion : Db → RequirementVersion → Type 0
  IsVersion db v = keep own db.requirement_versions ≡ v ∷ []

  own-publish_at : (now : ℕ) (v : RequirementVersion) → own (publish_at now v) ≡ own v
  unfolding in_tenant
  own-publish_at now v = refl

  found_version-IsVersion :
      (db : Db) (v : RequirementVersion)
      → IsVersion db v
      → found_version p version_id db ≡ (ok v, db)
  unfolding found_version get_by_id one_or_none
  found_version-IsVersion db v h = rw h refl

  -- What publishing leaves: the version that it returned, published.
  publish-IsVersion :
      (now : ℕ) (v w : RequirementVersion) (db db' : Db)
      → IsVersion db v
      → publish p now v db ≡ (ok w, db')
      → IsVersion db' w × (is_published w ≡ true)
  unfolding publish replace
  publish-IsVersion now v w db db' h returned = elim (Bool-cases (is_published v)) [
    | inl published ↦
        let kept = rw published at returned in
        let same : v ≡ w = cc kept in
        let unchanged : db ≡ db' = cc kept in (rw (same, unchanged) at h, rw same at published)
    | inr fresh ↦
        let wrote = rw fresh at returned in
        let same : publish_at now v ≡ w = cc wrote in
        let versions : replace (λ x. x.id == v.id) (publish_at now) db.requirement_versions
            ≡ db'.requirement_versions =
          ap (λ (r : Result RequirementVersion × Db). r.1.requirement_versions) wrote in
        (
          rw (sym versions, sym same)
              (keep-replace own (λ x. x.id == v.id) (publish_at now) db.requirement_versions
                  (own-publish_at now)
                ∙ rw (h, (==_iff v.id v.id).1 refl) refl),
          rw (sym same) refl,
        )
  ]

  continue-IsVersion :
      (now : ℕ) (found : Result (Option RequirementVersion)) (w : RequirementVersion) (db db' : Db)
      → one_or_none (keep own db.requirement_versions) ≡ found
      → continue
          (continue found (or_raise (http_detail 404 "Requirement version not found")) db).0
          (publish p now)
          (continue found (or_raise (http_detail 404 "Requirement version not found")) db).1
        ≡ (ok w, db')
      → IsVersion db' w × (is_published w ≡ true)
  continue-IsVersion now (err e) w db db' read h = cc
  continue-IsVersion now (ok none) w db db' read h = cc
  continue-IsVersion now (ok (some v)) w db db' read h =
      publish-IsVersion now v w db db' (one_or_none-some _ v read) h

  publish_requirement_version-IsVersion :
      (now : ℕ) (w : RequirementVersion) (db db' : Db)
      → publish_requirement_version p now version_id db ≡ (ok w, db')
      → IsVersion db' w × (is_published w ≡ true)
  unfolding publish_requirement_version found_version get_by_id
  publish_requirement_version-IsVersion now w db db' h = continue-IsVersion now _ w db db' refl h

  publish_again :
      (now : ℕ) (db : Db) (v : RequirementVersion)
      → IsVersion db v
      → is_published v ≡ true
      → publish_requirement_version p now version_id db ≡ (ok v, db)
  unfolding publish_requirement_version publish
  publish_again now db v h published = rw (found_version-IsVersion db v h, published) refl

  add_criterion_refused :
      (new_id : ℕ) (given : CriterionDraft) (db : Db) (v : RequirementVersion)
      → IsVersion db v
      → is_published v ≡ true
      → add_criterion p new_id version_id given db
        ≡ (err (http_detail 400 "Cannot modify a published requirement version"), db)
  unfolding add_criterion
  add_criterion_refused new_id given db v h published =
      rw (found_version-IsVersion db v h, published) refl

  add_requirement_member_refused :
      (new_id criterion_id : ℕ) (given : MemberDraft) (db : Db) (v : RequirementVersion)
      (c : Criterion)
      → IsVersion db v
      → is_published v ≡ true
      → keep (in_tenant criteria p.institution_id criterion_id) db.criteria ≡ c ∷ []
      → c.requirement_version_id ≡ version_id
      → add_requirement_member p new_id criterion_id given db
        ≡ (err (http_detail 400 "Cannot modify a published requirement version"), db)
  unfolding add_requirement_member get_by_id one_or_none published_row
  add_requirement_member_refused new_id criterion_id given db v c h published found named =
      rw (found, named, h, published) refl

  -- Each criterion with that id belongs to the version; there may be none.
  abbrev pub BelongsTo : ℕ → Criterion → Type 0
  BelongsTo criterion_id c = c.id ≡ criterion_id → c.requirement_version_id ≡ version_id

  member_of-found :
      (new_id criterion_id : ℕ) (given : MemberDraft) (db : Db) (v : RequirementVersion)
      (found : Result (Option Criterion))
      → IsVersion db v
      → is_published v ≡ true
      → All (BelongsTo criterion_id) db.criteria
      → one_or_none (keep (in_tenant criteria p.institution_id criterion_id) db.criteria) ≡ found
      → (e : Error) × (add_requirement_member p new_id criterion_id given db ≡ (err e, db))
  unfolding add_requirement_member get_by_id in_tenant
  member_of-found new_id criterion_id given db v (err e) h published belong read = (e, rw read refl)
  member_of-found new_id criterion_id given db v (ok none) h published belong read =
      (http_detail 404 "Criterion not found", rw read refl)
  member_of-found new_id criterion_id given db v (ok (some c)) h published belong read =
      let kept = one_or_none-some _ c read in
      let passed =
        (rw kept at
          (keep-passes (in_tenant criteria p.institution_id criterion_id) db.criteria)).0 in
      let belongs =
        (rw kept at (
          All-filtered (BelongsTo criterion_id) (in_tenant criteria p.institution_id criterion_id)
            db.criteria belong)).0 in
      (
        http_detail 400 "Cannot modify a published requirement version",
        add_requirement_member_refused new_id criterion_id given db v c h published kept
            (belongs (ground (arith, ==_iff c.id criterion_id))),
      )

-- Once a version was published, then as long as its row stays as the publication left it, whatever else
-- is changed: no user of the institution can add a criterion to it, nor a member to a criterion of it,
-- if it has any: every attempt raises and changes nothing. Publishing it again, at any time, returns
-- the same version with the time of its first publication, and changes nothing.
pub publication_final :
    (p q : Principal) (version_id now later new_id criterion_id : ℕ) (given : CriterionDraft)
    (member : MemberDraft) (v : RequirementVersion) (db db' db'' : Db)
    → publish_requirement_version p now version_id db ≡ (ok v, db')
    → q.institution_id ≡ p.institution_id
    → keep (in_tenant requirement_versions p.institution_id version_id) db''.requirement_versions
      ≡ keep (in_tenant requirement_versions p.institution_id version_id) db'.requirement_versions
    → All (BelongsTo p version_id criterion_id) db''.criteria
    → (add_criterion q new_id version_id given db''
        ≡ (err (http_detail 400 "Cannot modify a published requirement version"), db''))
      × ((e : Error) × (add_requirement_member q new_id criterion_id member db'' ≡ (err e, db'')))
      × (publish_requirement_version q later version_id db'' ≡ (ok v, db''))
publication_final p q version_id now later new_id criterion_id given member v db db' db'' h same
      stays belong =
    let (left, published) = publish_requirement_version-IsVersion p version_id now v db db' h in
    let version : IsVersion q version_id db'' v = rw same (stays ∙ left) in
    (
      add_criterion_refused q version_id new_id given db'' v version published,
      member_of-found q version_id new_id criterion_id member db'' v _ version published belong
          refl,
      publish_again q version_id later db'' v version published,
    )
