-- ===== src/PolicyService/Audit.antt =====
-- The lifecycle events of a policy version tell its whole life.
mod Life
pub mod Commands
mod Tests
pub use Life.{Step, history, life, Audited, IsAudited}
use mathlib.Core.List.{append-nil, map-append}
use placement_assistant.Prelude.{
  ℕ, suc, ◌+◌, ◌≤◌, String, Bool, true, false, ◌&&◌, ◌≡◌, refl, sym, ap, ◌∙◌, Option, none, some,
  List, [], ◌∷◌, ◌++◌, map, keep, keep_one, keep_other, keep-append, keep-passes, keep-replace,
  replace, All, All-map, All-zip, All-replaced, unique_row, length, arith, length-replace,
  Bool-cases, inl, inr, ◌==◌, ==_iff, length-map, any, any-All, any-neither, keep-none,
  length-keep-added, All-append,
}
use placement_assistant.Database.{
  Db, Principal, PolicyStatus, draft, processing, review, approved, active, archived, PolicyVersion,
  PolicyEvent, greatest, column_or_zero,
}
use placement_assistant.Database.Numbering.{CountsFrom, last_number}
use placement_assistant.Repositories.{in_tenant}
use placement_assistant.Repositories.Tables.{versions}
use placement_assistant.PolicyService.Transition.{
  Edge, process, submit, approve, activate, archive, IsTransition,
}
use placement_assistant.PolicyService.{lifecycle_event, latest_event_version, set_status}
use placement_assistant.PolicyService.Audit.Life.{
  of_version, step, life-Edge, history-append, history-other, latest-life,
}

module _ (p : Principal) (now version_id : ℕ) (reason : String) (target : PolicyStatus) where
  -- The version that moved, and its new event.
  moved-Audited :
      (v : PolicyVersion) (db : Db)
      → v.institution_id ≡ p.institution_id
      → v.id ≡ version_id
      → Edge v.status target
      → Audited db.policy_events v
      → Audited
          (db.policy_events
            ++ lifecycle_event p now version_id
                (some v.status)
                target
                reason
                (latest_event_version p version_id db)
              ∷ [])
          (set_status target v)
  moved-Audited v db place same edge h =
      let here : history p.institution_id version_id db.policy_events ≡ life v.status =
        rw (sym place, sym same) h in
      let latest = latest-life p version_id v.status db here in
      rw (place, same)
        (history-append p.institution_id version_id db.policy_events _ (
            rw
              (
                (==_iff p.institution_id p.institution_id).1 refl,
                (==_iff version_id version_id).1 refl,
              )
              refl)
          ∙ (λ i. here i ++ step v.status target (latest i + 1) ∷ [])
          ∙ sym (life-Edge v.status target edge))

  other-Audited :
      (v : PolicyVersion) (db : Db) (latest : ℕ) (from_status : Option PolicyStatus)
      → (v.id == version_id) ≡ false
      → Audited db.policy_events v
      → Audited
          (db.policy_events
            ++ lifecycle_event p now version_id from_status target reason latest ∷ [])
          v
  other-Audited v db latest from_status other h =
      history-other v.institution_id v.id db.policy_events _
        (ground (arith, ==_iff v.id version_id, ==_iff version_id v.id))
      ∙ h

  in_tenant-fields :
      (v : PolicyVersion)
      → in_tenant versions p.institution_id version_id v ≡ true
      → (v.institution_id ≡ p.institution_id) × (v.id ≡ version_id)
  unfolding in_tenant
  in_tenant-fields v h = (
    ground (arith, ==_iff v.institution_id p.institution_id),
    ground (arith, ==_iff v.id version_id),
  )

  pub transition-IsAudited :
      (db : Db) (v : PolicyVersion) (db' : Db)
      → IsTransition p now version_id reason target db v db'
      → IsAudited db
      → IsAudited db'
  transition-IsAudited db v db' t h =
      let b = t.before in
      let (place, same) =
        in_tenant-fields b
          (rw t.read at
            (keep-passes (in_tenant versions p.institution_id version_id) db.policy_versions)).0 in
      let only =
        unique_row (λ (x : PolicyVersion). x.id) (in_tenant versions p.institution_id version_id)
          db.policy_versions b h.key t.read in
      record {
        key = λ id.
            rw
              (
                t.written,
                keep-replace (λ (x : PolicyVersion). x.id == id) (λ x. x.id == b.id)
                    (set_status target) db.policy_versions (λ x. refl),
                length-replace,
              )
              (h.key id);
        lives =
            rw (t.written, t.recorded)
              (All-replaced (λ x. Audited db.policy_events x × ((x.id == b.id) ≡ true → x ≡ b))
                (Audited _) (λ x. x.id == b.id) (set_status target) db.policy_versions
                (λ x known here.
                  rw (known.1 here)
                    (moved-Audited b db place same t.edge (rw (known.1 here) at known.0)))
                (λ x known there. other-Audited x db _ _ (rw same at there) known.0)
                (All-zip (Audited db.policy_events) (λ x. (x.id == b.id) ≡ true → x ≡ b) _
                  db.policy_versions (λ x audited one. (audited, one)) h.lives only));
      }

module _ (p : Principal) (now id : ℕ) (reason : String) where
  -- No event names an unused id.
  unused-history :
      (i : ℕ) (events : List PolicyEvent)
      → any (λ (e : PolicyEvent). e.policy_version_id == id) events ≡ false
      → keep (of_version i id) events ≡ []
  unused-history i events unused = keep-none (of_version i id) events (
      any-neither (of_version i id) (λ e. e.policy_version_id == id)
        (λ e. e.policy_version_id == id) events (λ e other _. ground (arith, other)) unused unused)

  created-Audited :
      (v : PolicyVersion) (db : Db)
      → v.institution_id ≡ p.institution_id
      → v.id ≡ id
      → v.status ≡ draft
      → any (λ (e : PolicyEvent). e.policy_version_id == id) db.policy_events ≡ false
      → Audited
          (db.policy_events
            ++ lifecycle_event p now id none draft reason (latest_event_version p id db) ∷ [])
          v
  unfolding greatest
  created-Audited v db place same new unused =
      let nothing = unused-history p.institution_id db.policy_events unused in
      rw (place, same, new)
        (history-append p.institution_id id db.policy_events _
            (rw ((==_iff p.institution_id p.institution_id).1 refl, (==_iff id id).1 refl) refl)
          ∙ rw nothing refl)

  pub created-IsAudited :
      (v : PolicyVersion) (db db' : Db)
      → v.institution_id ≡ p.institution_id
      → v.id ≡ id
      → v.status ≡ draft
      → any (λ (x : PolicyVersion). x.id == id) db.policy_versions ≡ false
      → any (λ (e : PolicyEvent). e.policy_version_id == id) db.policy_events ≡ false
      → db'.policy_versions ≡ db.policy_versions ++ v ∷ []
      → db'.policy_events
        ≡ db.policy_events
          ++ lifecycle_event p now id none draft reason (latest_event_version p id db) ∷ []
      → IsAudited db
      → IsAudited db'
  created-IsAudited v db db' place same new unused unnamed added recorded h = record {
    key = λ other. rw added (
        length-keep-added (λ (x : PolicyVersion). x.id == other) db.policy_versions v
          (λ mine.
            let at : id ≡ other = sym same ∙ (==_iff v.id other).0 mine in rw (sym at) unused)
          (h.key other));
    lives =
        rw (added, recorded)
          (All-append (Audited _) db.policy_versions (v ∷ [])
            (All-zip (Audited db.policy_events) (λ x. (x.id == id) ≡ false) (Audited _)
              db.policy_versions
              (λ x audited differs. other-Audited p now id reason draft x db _ none differs audited)
              h.lives (any-All (λ x. x.id == id) db.policy_versions unused))
            (created-Audited v db place same new unnamed, tt));
  }
