-- ===== src/RecruitmentService/Closing.antt =====
-- Closing an opportunity.
use placement_assistant.Prelude.{
  ℕ, Bool, true, ◌≡◌, refl, sym, ap, ◌∙◌, inl, inr, Option, none, some, [], ◌∷◌, keep, keep-replace,
  replace, Result, ok, err, http_detail, continue, or_raise, ◌>>=◌, Bool-cases, ◌==◌, ==_iff,
}
use placement_assistant.Database.{Db, Principal, Opportunity, one_or_none, one_or_none-some}
use placement_assistant.Repositories.{in_tenant, get_by_id}
use placement_assistant.Repositories.Tables.{opportunities}
use placement_assistant.RecruitmentService.{close, close_opportunity, is_closed, set_closed}

module _ (p : Principal) (opportunity_id : ℕ) where
  abbrev own : Opportunity → Bool
  own = in_tenant opportunities p.institution_id opportunity_id

  own-set_closed : (o : Opportunity) → own (set_closed o) ≡ own o
  unfolding in_tenant
  own-set_closed o = refl

  abbrev ClosedThere : Db → Opportunity → Type 0
  ClosedThere db o = (keep own db.opportunities ≡ o ∷ []) × (is_closed o.status ≡ true)

  closed-again :
      (o : Opportunity) (db : Db)
      → ClosedThere db o
      → close_opportunity p opportunity_id db ≡ (ok o, db)
  unfolding close_opportunity close get_by_id one_or_none
  closed-again o db (h, closed) = rw (h, closed) refl

  close-ClosedThere :
      (o r : Opportunity) (db db' : Db)
      → keep own db.opportunities ≡ o ∷ []
      → close p o db ≡ (ok r, db')
      → ClosedThere db' r
  unfolding close replace is_closed
  close-ClosedThere o r db db' h returned = elim (Bool-cases (is_closed o.status)) [
    | inl closed ↦
        let kept = rw closed at returned in
        let same : o ≡ r = cc kept in
        let unchanged : db ≡ db' = cc kept in (rw (same, unchanged) at h, rw same at closed)
    | inr still ↦
        let wrote = rw still at returned in
        let same : set_closed o ≡ r = cc wrote in
        let rows : replace (λ x. x.id == o.id) set_closed db.opportunities ≡ db'.opportunities =
          ap (λ (x : Result Opportunity × Db). x.1.opportunities) wrote in
        (
          rw (sym rows, sym same)
              (keep-replace own (λ x. x.id == o.id) set_closed db.opportunities own-set_closed
                ∙ rw (h, (==_iff o.id o.id).1 refl) refl),
          rw (sym same) refl,
        )
  ]

  continue-ClosedThere :
      (found : Result (Option Opportunity)) (r : Opportunity) (db db' : Db)
      → one_or_none (keep own db.opportunities) ≡ found
      → continue found (λ o. or_raise (http_detail 404 "Opportunity not found") o >>= close p) db
        ≡ (ok r, db')
      → ClosedThere db' r
  continue-ClosedThere (err e) r db db' read h = cc
  continue-ClosedThere (ok none) r db db' read h = cc
  continue-ClosedThere (ok (some o)) r db db' read h =
      close-ClosedThere o r db db' (one_or_none-some _ o read) h

  -- Closing an opportunity leaves it closed: when it is closed again, the same row is returned and
  -- nothing changes.
  pub close_opportunity_idempotent :
      (r : Opportunity) (db db' : Db)
      → close_opportunity p opportunity_id db ≡ (ok r, db')
      → (is_closed r.status ≡ true) × (close_opportunity p opportunity_id db' ≡ (ok r, db'))
  unfolding close_opportunity get_by_id
  close_opportunity_idempotent r db db' h =
      let (there, closed) = continue-ClosedThere _ r db db' refl h in
      (closed, closed-again r db' (there, closed))
