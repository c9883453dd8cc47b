-- ===== src/GenerationService/Single/Table.antt =====
-- The table of published generations, when a generation is published.
use placement_assistant.Prelude.{
  ℕ, ◌≤◌, String, Bool, true, false, not, ◌&&◌, List, [], ◌∷◌, ◌++◌, keep, replace, any, All,
  length, ◌≡◌, inl, inr, arith, Bool-cases, ==_iff, ◌==◌, sym, length-keep-added, any-neither,
}
use placement_assistant.Rag.{Rag, RagPublishedGeneration}
use placement_assistant.GenerationService.{Services, is_published_for, put_published, is_taken}

abbrev pub for_binding : ℕ → ℕ → RagPublishedGeneration → Bool
for_binding i b p = p.institution_id == i && p.binding_id == b

abbrev pub of_generation : ℕ → ℕ → RagPublishedGeneration → Bool
of_generation i g p = p.institution_id == i && p.generation_id == g

-- The two constraints of the table of published generations.
pub record IsSingle (rows : List RagPublishedGeneration) : Type 0 where
  pub bindings : (i b : ℕ) → length (keep (for_binding i b) rows) ≤ 1
  pub generations : (i g : ℕ) → length (keep (of_generation i g) rows) ≤ 1

-- Rows that are changed where `p` passes: those that `q` keeps afterwards are at most those that `r`
-- kept before, if `r` keeps each of them.
length-keep-replace :
    {A : Type 0} (q r p : A → Bool) (f : A → A) (xs : List A)
    → All
        (λ x. (p x ≡ true → q (f x) ≡ true → r x ≡ true) × (p x ≡ false → q x ≡ true → r x ≡ true))
        xs
    → length (keep q (replace p f xs)) ≤ length (keep r xs)
unfolding keep replace
length-keep-replace q r p f [] h = omega arith
length-keep-replace q r p f (x ∷ xs) h =
    grind (arith, h.0.0, h.0.1, length-keep-replace q r p f xs h.1)

both : (i j g k : ℕ) → (i == j && g == k) ≡ true → (i ≡ j) × (g ≡ k)
both i j g k same = (ground (arith, ==_iff i j), ground (arith, ==_iff g k))

module _ (institution_id : ℕ) (services : Services) (digest : String → String) where
  abbrev here : ℕ → RagPublishedGeneration → Bool
  here = is_published_for institution_id services digest

  abbrev pointed : ℕ → ℕ → RagPublishedGeneration → RagPublishedGeneration
  pointed generation_id now p = record p { generation_id = generation_id; published_at = now }

  -- Another binding's row for the generation.
  abbrev elsewhere : ℕ → ℕ → RagPublishedGeneration → Bool
  elsewhere binding_id generation_id p =
      p.institution_id == institution_id
      && p.generation_id == generation_id
      && not (p.binding_id == binding_id)

  replaced-bindings :
      (binding_id generation_id now i b : ℕ) (rows : List RagPublishedGeneration)
      → All
          (λ p.
            (here binding_id p ≡ true
              → for_binding i b (pointed generation_id now p) ≡ true
              → for_binding i b p ≡ true)
            × (here binding_id p ≡ false → for_binding i b p ≡ true → for_binding i b p ≡ true))
          rows
  replaced-bindings binding_id generation_id now i b [] = tt
  replaced-bindings binding_id generation_id now i b (p ∷ rows) =
      (((λ _ h. h), (λ _ h. h)), replaced-bindings binding_id generation_id now i b rows)

  -- A generation that is not this one is published by no more rows than before.
  replaced-others :
      (binding_id generation_id now i g : ℕ) (rows : List RagPublishedGeneration)
      → (i == institution_id && g == generation_id) ≡ false
      → All
          (λ p.
            (here binding_id p ≡ true
              → of_generation i g (pointed generation_id now p) ≡ true
              → of_generation i g p ≡ true)
            × (here binding_id p ≡ false → of_generation i g p ≡ true → of_generation i g p ≡ true))
          rows
  unfolding is_published_for
  replaced-others binding_id generation_id now i g [] h = tt
  replaced-others binding_id generation_id now i g (p ∷ rows) h = (
    (
      (λ at new. ground (
        arith,
        ==_iff p.institution_id institution_id,
        ==_iff p.institution_id i,
        ==_iff i institution_id,
        ==_iff generation_id g,
        ==_iff g generation_id,
      )),
      (λ _ h. h),
    ),
    replaced-others binding_id generation_id now i g rows h,
  )

  -- The rows of this generation are then rows of the binding.
  replaced-same :
      (binding_id generation_id now : ℕ) (rows : List RagPublishedGeneration)
      → any (elsewhere binding_id generation_id) rows ≡ false
      → All
          (λ p.
            (here binding_id p ≡ true
              → of_generation institution_id generation_id (pointed generation_id now p) ≡ true
              → here binding_id p ≡ true)
            × (here binding_id p ≡ false
                → of_generation institution_id generation_id p ≡ true
                → here binding_id p ≡ true))
          rows
  unfolding any is_published_for
  replaced-same binding_id generation_id now [] h = tt
  replaced-same binding_id generation_id now (p ∷ rows) h = (
    ((λ at _. at), (λ at same. ground arith)),
    replaced-same binding_id generation_id now rows (ground arith),
  )

  replaced-IsSingle :
      (binding_id generation_id now : ℕ) (rows : List RagPublishedGeneration)
      → any (elsewhere binding_id generation_id) rows ≡ false
      → IsSingle rows
      → IsSingle (replace (here binding_id) (pointed generation_id now) rows)
  unfolding is_published_for
  replaced-IsSingle binding_id generation_id now rows free h = record {
    bindings = λ i b.
        let few =
          length-keep-replace (for_binding i b) (for_binding i b) (here binding_id)
            (pointed generation_id now) rows
            (replaced-bindings binding_id generation_id now i b rows) in
        omega (arith, few, h.bindings i b);
    generations = λ i g. elim (Bool-cases (i == institution_id && g == generation_id)) [
      | inl same ↦
          let few =
            length-keep-replace (of_generation institution_id generation_id) (here binding_id)
              (here binding_id) (pointed generation_id now) rows
              (replaced-same binding_id generation_id now rows free) in
          let (place, which) = both i institution_id g generation_id same in
          rw (place, which) (omega (arith, few, h.bindings institution_id binding_id))
      | inr other ↦
          let few =
            length-keep-replace (of_generation i g) (of_generation i g) (here binding_id)
              (pointed generation_id now) rows
              (replaced-others binding_id generation_id now i g rows other) in
          omega (arith, few, h.generations i g)
    ];
  }

  abbrev new_row : ℕ → ℕ → ℕ → RagPublishedGeneration
  new_row binding_id generation_id now = record {
    institution_id = institution_id;
    binding_id = binding_id;
    generation_id = generation_id;
    published_at = now;
  }

  added-IsSingle :
      (binding_id generation_id now : ℕ) (rows : List RagPublishedGeneration)
      → any (elsewhere binding_id generation_id) rows ≡ false
      → any (here binding_id) rows ≡ false
      → IsSingle rows
      → IsSingle (rows ++ new_row binding_id generation_id now ∷ [])
  unfolding is_published_for
  added-IsSingle binding_id generation_id now rows free absent h = record {
    bindings = λ i b.
        length-keep-added (for_binding i b) rows (new_row binding_id generation_id now)
          (λ mine.
            any-neither (for_binding i b) (here binding_id) (here binding_id) rows
              (λ p not_here _.
                let (place, which) = both institution_id i binding_id b mine in
                rw (sym place, sym which) not_here)
              absent absent)
          (h.bindings i b);
    generations = λ i g.
        length-keep-added (of_generation i g) rows (new_row binding_id generation_id now)
          (λ mine.
            any-neither (of_generation i g) (elsewhere binding_id generation_id) (here binding_id)
              rows
              (λ p not_else not_here.
                let (place, which) = both institution_id i generation_id g mine in
                rw (sym place, sym which) (ground arith))
              free absent)
          (h.generations i g);
  }

  pub put_published-IsSingle :
      (binding_id generation_id now : ℕ) (s : Rag)
      → is_taken institution_id services digest binding_id generation_id s ≡ false
      → IsSingle s.published
      → IsSingle
          (put_published institution_id services digest binding_id generation_id now s).published
  unfolding put_published is_taken
  put_published-IsSingle binding_id generation_id now s free h =
      elim (Bool-cases (any (here binding_id) s.published)) [
        | inl present ↦
            rw present (replaced-IsSingle binding_id generation_id now s.published free h)
        | inr absent ↦
            rw absent (added-IsSingle binding_id generation_id now s.published free absent h)
      ]
