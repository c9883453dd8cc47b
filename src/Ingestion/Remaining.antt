-- ===== src/Ingestion/Remaining.antt =====
-- How often the jobs of an institution may still be acquired.
use placement_assistant.Prelude.{
  ℕ, ◌+◌, ◌-◌, ◌≤◌, Bool, true, false, ◌&&◌, List, [], ◌∷◌, replace, any, Has, ◌≡◌, refl, arith,
  inl, inr, ltb, ◌==◌, if◌then◌else◌,
}
use placement_assistant.Rag.{Rag, RagJob}
use placement_assistant.Ingestion.{is_queued, is_available, leased}

abbrev pub unlocked : ℕ → Bool
unlocked _ = false

module _ (institution_id : ℕ) where
  -- How many times a job may still be acquired.
  abbrev pub share : RagJob → ℕ
  share j = if j.institution_id == institution_id then 3 - j.attempt else 0

  abbrev pub total : List RagJob → ℕ
  total [] = 0
  total (j ∷ js) = share j + total js

  abbrev pub remaining : Rag → ℕ
  remaining s = total s.jobs

  -- A job of the institution that waits for its turn.
  unfoldable pub is_waiting : RagJob → Bool
  is_waiting j = j.institution_id == institution_id && ltb j.attempt 3 && is_queued j.status

  pub share-leased :
      (lease_seconds now : ℕ) (j : RagJob)
      → share (leased institution_id now lease_seconds j) ≤ share j
  unfolding leased
  share-leased lease_seconds now j = ground arith

  pub share-available :
      (lease_seconds now : ℕ) (j : RagJob)
      → is_available institution_id unlocked now 3 j ≡ true
      → share (leased institution_id now lease_seconds j) + 1 ≤ share j
  unfolding leased is_available
  share-available lease_seconds now j h = ground arith

  pub total-replace :
      (lease_seconds now : ℕ) (p : RagJob → Bool) (js : List RagJob)
      → total (replace p (leased institution_id now lease_seconds) js) ≤ total js
  unfolding replace
  total-replace lease_seconds now p [] = omega arith
  total-replace lease_seconds now p (j ∷ js) =
      ground (arith, share-leased lease_seconds now j, total-replace lease_seconds now p js)

  pub total-replace_strict :
      (lease_seconds now : ℕ) (p : RagJob → Bool) (js : List RagJob)
      → Has (λ j. (p j ≡ true) × (is_available institution_id unlocked now 3 j ≡ true)) js
      → total (replace p (leased institution_id now lease_seconds) js) + 1 ≤ total js
  unfolding replace
  total-replace_strict lease_seconds now p [] there = absurd there
  total-replace_strict lease_seconds now p (j ∷ js) (inl (passes, available)) = rw passes (
      omega (
        arith,
        share-available lease_seconds now j available,
        total-replace lease_seconds now p js,
      ))
  total-replace_strict lease_seconds now p (j ∷ js) (inr there) =
      ground
        (arith, share-leased lease_seconds now j, total-replace_strict lease_seconds now p js there)

  pub exhausted : (js : List RagJob) → total js ≡ 0 → any is_waiting js ≡ false
  unfolding any is_waiting
  exhausted [] h = refl
  exhausted (j ∷ js) h = ground (arith, exhausted js)

  pub waiting-IsAvailable :
      (now : ℕ) (j : RagJob)
      → is_waiting j ≡ true
      → is_available institution_id unlocked now 3 j ≡ true
  unfolding is_waiting is_available
  waiting-IsAvailable now j h = ground arith
