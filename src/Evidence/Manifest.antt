-- ===== src/Evidence/Manifest.antt =====
-- What an accepted manifest says.
use mathlib.Core.List.{Perm, Permᴰ}
use mathlib.Core.List.Permᴰ
use placement_assistant.Prelude.{
  ◌≡◌, ◌≢◌, refl, ap, inl, inr, Bool, true, false, ◌||◌, List, [], ◌∷◌, ◌++◌, any, All, length,
  length-append, ok, Bool-cases, arith, ◌==◌, ==_iff, eq_iff,
}
use placement_assistant.Evidence.{
  ManifestPoint, same_point, distinct_ids, included, mismatch, validate_manifest,
}

same_point-eq : (p q : ManifestPoint) → same_point p q ≡ true → p ≡ q
unfolding same_point
same_point-eq p q h = ground (arith, ==_iff p.point_id q.point_id, eq_iff p.chunk_hash q.chunk_hash)

-- Where a point stands in a list.
record Placed (p : ManifestPoint) (xs : List ManifestPoint) : Type 0 where
  before : List ManifestPoint
  behind : List ManifestPoint
  parts : xs ≡ before ++ p ∷ behind

any-Placed :
    (p : ManifestPoint) (xs : List ManifestPoint) → any (same_point p) xs ≡ true → Placed p xs
unfolding any
any-Placed p [] h = cc
any-Placed p (x ∷ xs) h = elim (Bool-cases (same_point p x)) [
  | inl same ↦ record { before = []; behind = xs; parts = rw (same_point-eq p x same) refl }
  | inr other ↦
      let place = any-Placed p xs (rw other at h) in
      record {
        before = x ∷ place.before;
        behind = place.behind;
        parts = ap (λ ys. x ∷ ys) place.parts;
      }
]

any-append :
    (f : ManifestPoint → Bool) (xs ys : List ManifestPoint)
    → any f (xs ++ ys) ≡ any f xs || any f ys
unfolding any
any-append f [] ys = refl
any-append f (x ∷ xs) ys = ground (arith, any-append f xs ys)

-- A point with another id is found among the others.
elsewhere :
    (p q : ManifestPoint) (before behind : List ManifestPoint)
    → (p.point_id == q.point_id) ≡ false
    → any (same_point q) (before ++ p ∷ behind) ≡ true
    → any (same_point q) (before ++ behind) ≡ true
unfolding any same_point
elsewhere p q before behind other found = ground (
  arith,
  any-append (same_point q) before (p ∷ behind),
  any-append (same_point q) before behind,
  ==_iff p.point_id q.point_id,
  ==_iff q.point_id p.point_id,
)

included-elsewhere :
    (p : ManifestPoint) (ps before behind : List ManifestPoint)
    → any (λ q. p.point_id == q.point_id) ps ≡ false
    → included ps (before ++ p ∷ behind) ≡ true
    → included ps (before ++ behind) ≡ true
unfolding any included
included-elsewhere p [] before behind fresh inside = refl
included-elsewhere p (q ∷ qs) before behind fresh inside =
    ground (arith, elsewhere p q before behind, included-elsewhere p qs before behind)

empty-list : (xs : List ManifestPoint) → 0 ≡ length xs → [] ≡ xs
empty-list [] h = refl
empty-list (x ∷ xs) h = absurd (omega (arith, h))

smaller :
    (p : ManifestPoint) (ps before behind : List ManifestPoint)
    → length (p ∷ ps) ≡ length (before ++ p ∷ behind)
    → length ps ≡ length (before ++ behind)
smaller p ps before behind size =
    omega (arith, size, length-append before (p ∷ behind), length-append before behind)

-- One step: the point is put where it stands.
placed-Perm :
    (p : ManifestPoint) (ps before behind actual : List ManifestPoint)
    → actual ≡ before ++ p ∷ behind
    → any (λ q. p.point_id == q.point_id) ps ≡ false
    → included ps actual ≡ true
    → (included ps (before ++ behind) ≡ true
        → length ps ≡ length (before ++ behind)
        → Permᴰ ps (before ++ behind))
    → length (p ∷ ps) ≡ length actual
    → Permᴰ (p ∷ ps) actual
placed-Perm p ps before behind actual parts fresh inside rest size =
    let others =
      rest (included-elsewhere p ps before behind fresh (rw parts at inside))
        (smaller p ps before behind (rw parts at size)) in
    rw parts (Permᴰ.trans (Permᴰ.cons refl others) (Permᴰ.symm (Permᴰ.middle p before behind)))

included-Perm :
    (ps actual : List ManifestPoint)
    → distinct_ids ps ≡ true
    → included ps actual ≡ true
    → length ps ≡ length actual
    → Permᴰ ps actual
unfolding distinct_ids included
included-Perm [] actual distinct inside size = rw (← empty-list actual size) Permᴰ.nil
included-Perm (p ∷ ps) actual distinct inside size =
    let place = any-Placed p actual (ground arith) in
    placed-Perm p ps place.before place.behind actual place.parts (ground arith) (ground arith)
      (included-Perm ps (place.before ++ place.behind) (ground arith)) size

-- No point id occurs twice.
abbrev pub DistinctIds : List ManifestPoint → Type 0
DistinctIds [] = Unit
DistinctIds (p ∷ ps) = All (λ q. p.point_id ≢ q.point_id) ps × DistinctIds ps

fresh-All :
    (p : ManifestPoint) (ps : List ManifestPoint)
    → any (λ q. p.point_id == q.point_id) ps ≡ false
    → All (λ q. p.point_id ≢ q.point_id) ps
unfolding any
fresh-All p [] h = tt
fresh-All p (q ∷ qs) h = ground (arith, fresh-All p qs)

distinct_ids-DistinctIds : (ps : List ManifestPoint) → distinct_ids ps ≡ true → DistinctIds ps
unfolding distinct_ids
distinct_ids-DistinctIds [] h = tt
distinct_ids-DistinctIds (p ∷ ps) h = ground (arith, fresh-All p ps, distinct_ids-DistinctIds ps)

nonempty : (ps : List ManifestPoint) → (length ps == 0) ≡ false → ps ≢ []
nonempty [] h e = cc
nonempty (p ∷ ps) h e = cc

matched-Perm :
    (expected actual : List ManifestPoint)
    → mismatch expected actual ≡ false
    → (expected ≢ []) × DistinctIds expected × Perm expected actual
unfolding mismatch
matched-Perm expected actual h = (
  nonempty expected (ground arith),
  distinct_ids-DistinctIds expected (ground arith),
  ∣ included-Perm expected actual (ground arith) (ground arith)
      (ground (arith, ==_iff (length expected) (length actual))) ∣₁,
)

-- A manifest is accepted only if it is not empty, no point id occurs in it twice, and the points that
-- were fetched are the expected points, with their hashes, in some order.
pub validate_manifest-Perm :
    (expected actual : List ManifestPoint)
    → validate_manifest expected actual ≡ ok tt
    → (expected ≢ []) × DistinctIds expected × Perm expected actual
unfolding validate_manifest
validate_manifest-Perm expected actual h = elim (Bool-cases (mismatch expected actual)) [
  | inl refused ↦ cc (rw refused at h)
  | inr accepted ↦ matched-Perm expected actual accepted
]
