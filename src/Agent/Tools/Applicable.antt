-- ===== src/Agent/Tools/Applicable.antt =====
-- The requirement version that active_requirement of apps/api/app/agent/m8_authority.py finds.
use placement_assistant.Prelude.{
  ℕ, ◌≡◌, refl, ◌≤◌, ◌<◌, ◌⊎◌, inl, inr, Bool, true, Option, none, some, List, [], ◌∷◌, ◌++◌, ◌&&◌,
  ◌==◌, keep, Has, Has-keep, Has-map, ok, arith,
}
use placement_assistant.Database.{
  Db, Principal, Opportunity, Requirement, RequirementVersion, RequirementActivation,
}
use placement_assistant.Agent.Tools.{
  for_each, published_by, ends_after, only_version, published_versions, current_activations,
  requirements_of, matching_versions, active_requirement,
}

-- Published, and not only in the future.
abbrev pub IsPublished : ℕ → RequirementVersion → Type 0
IsPublished now v = (t : ℕ) × (v.published_at ≡ some t) × (t ≤ now)

-- Begun, and not ended.
abbrev pub IsCurrent : ℕ → RequirementActivation → Type 0
IsCurrent now a =
    (a.starts_at ≤ now) × ((a.ends_at ≡ none) ⊎ ((t : ℕ) × (a.ends_at ≡ some t) × (now < t)))

module _ (p : Principal) (now opportunity_id : ℕ) (db : Db) (id : ℕ) where
  -- An activation in force of the version `v`.
  abbrev pub IsActivation : Requirement → RequirementVersion → RequirementActivation → Type 0
  IsActivation r v a =
      (a.requirement_version_id ≡ v.id)
      × (a.institution_id ≡ p.institution_id)
      × (a.requirement_id ≡ r.id)
      × IsCurrent now a

  -- A published version of the requirement, with an activation in force.
  abbrev pub IsVersion : Requirement → RequirementVersion → Type 0
  IsVersion r v =
      (v.id ≡ id)
      × (v.requirement_id ≡ r.id)
      × (v.institution_id ≡ p.institution_id)
      × IsPublished now v
      × Has (IsActivation r v) db.requirement_activations

  -- A requirement of the opportunity, with such a version.
  abbrev pub IsRequirement : Opportunity → Requirement → Type 0
  IsRequirement o r =
      (r.opportunity_id ≡ o.id)
      × (r.institution_id ≡ p.institution_id)
      × Has (IsVersion r) db.requirement_versions

  -- The version `id` is a published version in force of a requirement of the opportunity, all of
  -- them of the caller's institution.
  abbrev pub IsApplicable : Type 0
  IsApplicable =
      Has
        (λ o.
          (o.id ≡ opportunity_id)
          × (o.institution_id ≡ p.institution_id)
          × Has (IsRequirement o) db.requirements)
        db.opportunities

Has-append : {A : Type 0} (P : A → Type 0) (xs ys : List A) → Has P (xs ++ ys) → Has P xs ⊎ Has P ys
Has-append P [] ys h = inr h
Has-append P (x ∷ xs) ys (inl h) = inl (inl h)
Has-append P (x ∷ xs) ys (inr h) = elim (Has-append P xs ys h) [
  | inl there ↦ inl (inr there)
  | inr there ↦ inr there
]

Has-for_each :
    {A : Type 0} (P : ℕ → Type 0) (f : A → List ℕ) (xs : List A)
    → Has P (for_each xs f)
    → Has (λ x. Has P (f x)) xs
unfolding for_each
Has-for_each P f [] h = h
Has-for_each P f (x ∷ xs) h = elim (Has-append P (f x) (for_each xs f) h) [
  | inl there ↦ inl there
  | inr there ↦ inr (Has-for_each P f xs there)
]

-- A row of a join, with what the filter says of it.
joined :
    {A : Type 0} (P : ℕ → Type 0) (Q : A → Type 0) (passes : A → Bool) (f : A → List ℕ)
    (xs : List A)
    → ((x : A) → Has P (f x) → passes x ≡ true → Q x)
    → Has P (for_each (keep passes xs) f)
    → Has Q xs
joined P Q passes f xs says h =
    Has-map (λ x. Has P (f x) × (passes x ≡ true)) Q (λ x both. says x both.0 both.1) xs
      (Has-keep (λ x. Has P (f x)) passes xs (Has-for_each P f (keep passes xs) h))

published_by-IsPublished :
    (now : ℕ) (v : RequirementVersion) (o : Option ℕ)
    → v.published_at ≡ o
    → published_by now o ≡ true
    → IsPublished now v
unfolding published_by
published_by-IsPublished now v none same h = cc
published_by-IsPublished now v (some t) same h = (t, same, ground arith)

ends_after-later :
    (now : ℕ) (a : RequirementActivation) (o : Option ℕ)
    → a.ends_at ≡ o
    → ends_after now o ≡ true
    → (a.ends_at ≡ none) ⊎ ((t : ℕ) × (a.ends_at ≡ some t) × (now < t))
unfolding ends_after
ends_after-later now a none same h = inl same
ends_after-later now a (some t) same h = inr (t, same, ground arith)

only_version-eq-ok : (ids : List ℕ) (id : ℕ) → only_version ids ≡ ok id → Has (λ n. n ≡ id) ids
unfolding only_version
only_version-eq-ok [] id h = cc
only_version-eq-ok (n ∷ []) id h = inl (ground arith)
only_version-eq-ok (n ∷ m ∷ ids) id h = cc

-- A join that answers the same for every row.
same_for_each :
    {A : Type 0} (k id : ℕ) (xs : List A) → Has (λ n. n ≡ id) (for_each xs (λ x. k ∷ [])) → k ≡ id
unfolding for_each
same_for_each k id [] h = absurd h
same_for_each k id (x ∷ xs) (inl h) = h
same_for_each k id (x ∷ xs) (inr h) = same_for_each k id xs h

module _ (p : Principal) (now opportunity_id : ℕ) (db : Db) (id : ℕ) where
  published_versions-IsVersion :
      (r : Requirement) (v : RequirementVersion)
      → Has
          (λ n. n ≡ id)
          (for_each (current_activations p now opportunity_id db r v) (λ a. v.id ∷ []))
      → (v.requirement_id == r.id
          && v.institution_id == p.institution_id
          && published_by now v.published_at)
        ≡ true
      → IsVersion p now opportunity_id db id r v
  unfolding current_activations
  published_versions-IsVersion r v found named = (
    same_for_each v.id id _ found,
    ground (arith, named),
    ground (arith, named),
    published_by-IsPublished now v v.published_at refl (ground (arith, named)),
    joined (λ n. n ≡ id) _ _ (λ a. v.id ∷ []) db.requirement_activations
        (λ a there current. (
          ground (arith, current),
          ground (arith, current),
          ground (arith, current),
          (
            ground (arith, current),
            ends_after-later now a a.ends_at refl (ground (arith, current)),
          ),
        ))
        found,
  )

  pub active_requirement-IsApplicable :
      active_requirement p now opportunity_id db ≡ ok id → IsApplicable p now opportunity_id db id
  unfolding active_requirement matching_versions requirements_of published_versions
  active_requirement-IsApplicable h =
      joined (λ n. n ≡ id) _ _ _ db.opportunities
        (λ o found named. (
          ground (arith, named),
          ground (arith, named),
          joined (λ n. n ≡ id) _ _ _ db.requirements
              (λ r found_r named_r. (
                ground (arith, named_r),
                ground (arith, named_r),
                joined (λ n. n ≡ id) _ _ _ db.requirement_versions (published_versions-IsVersion r)
                    found_r,
              ))
              found,
        ))
        (only_version-eq-ok _ id h)
