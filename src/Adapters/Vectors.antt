-- ===== src/Adapters/Vectors.antt =====
-- `embed` of apps/api/app/rag/embedding_provider.py sorts the items of a response by their index.
use mathlib.Core.List.{Permᴰ}
use placement_assistant.Prelude.{
  ℕ, suc, String, true, ◌<◌, Option, some, List, [], ◌∷◌, ok, Error, ◌≡◌, ◌≢◌, refl, ap, sym, subst,
  ◌∙◌, arith, length, All, ==_iff,
}
use placement_assistant.Database.{ascending, insert_row}
use placement_assistant.Evidence.{Component}
use placement_assistant.Adapters.{HttpReply, response, is_success, body_of}
use placement_assistant.Adapters.Embedding.{Embedding, vectors_of, read_data, embed, data_of}

length-permuted : {A : Type 0} {xs ys : List A} → Permᴰ xs ys → length xs ≡ length ys
length-permuted Permᴰ.nil = refl
length-permuted (Permᴰ.cons e p) = ap suc (length-permuted p)
length-permuted (Permᴰ.swap e f) = refl
length-permuted (Permᴰ.trans p q) = length-permuted p ∙ length-permuted q

All-permuted : {A : Type 0} (P : A → Type 0) {xs ys : List A} → Permᴰ xs ys → All P xs → All P ys
All-permuted P Permᴰ.nil h = tt
All-permuted P (Permᴰ.cons e p) (x, h) = (subst P e x, All-permuted P p h)
All-permuted P (Permᴰ.swap e f) (x, (y, h)) = (subst P f y, (subst P e x, h))
All-permuted P (Permᴰ.trans p q) h = All-permuted P q (All-permuted P p h)

module _ {A : Type 0} (column : A → ℕ) where
  -- No two rows have one value.
  abbrev pub Apart : List A → Type 0
  Apart [] = Unit
  Apart (x ∷ xs) = All (λ y. column x ≢ column y) xs × Apart xs

  Apart-permuted : {xs ys : List A} → Permᴰ xs ys → Apart xs → Apart ys
  Apart-permuted Permᴰ.nil h = tt
  Apart-permuted (Permᴰ.cons {l₂ = l₂} e p) (x, h) =
      (subst (λ a. All (λ y. column a ≢ column y) l₂) e (All-permuted _ p x), Apart-permuted p h)
  Apart-permuted (Permᴰ.swap {b = b} {b' = b'} {l = l} e f) ((x, xs), (ys, h)) = (
    (
      subst (λ c. column c ≢ column b') f (subst (λ c. column b ≢ column c) e (λ k. x (sym k))),
      subst (λ c. All (λ y. column c ≢ column y) l) f ys,
    ),
    (subst (λ c. All (λ y. column c ≢ column y) l) e xs, h),
  )
  Apart-permuted (Permᴰ.trans p q) h = Apart-permuted q (Apart-permuted p h)

  insert_row-insert_row :
      (x y : A) (xs : List A)
      → column x ≢ column y
      → insert_row column x (insert_row column y xs) ≡ insert_row column y (insert_row column x xs)
  unfolding insert_row
  insert_row-insert_row x y [] h = ground arith
  insert_row-insert_row x y (z ∷ xs) h = ground (arith, insert_row-insert_row x y xs h)

  -- Rows with values of their own come in one order.
  ascending-permuted :
      {xs ys : List A} → Permᴰ xs ys → Apart xs → ascending column xs ≡ ascending column ys
  unfolding ascending
  ascending-permuted Permᴰ.nil h = refl
  ascending-permuted (Permᴰ.cons {a = a} {l₂ = l₂} e p) (x, h) =
      ap (insert_row column a) (ascending-permuted p h)
      ∙ ap (λ c. insert_row column c (ascending column l₂)) e
  ascending-permuted (Permᴰ.swap {a = a} {b = b} {a' = a'} {l = l} e f) ((x, xs), (ys, h)) =
      insert_row-insert_row a b (ascending column l) x
      ∙ ap (λ c. insert_row column c (insert_row column a (ascending column l))) f
      ∙ ap (λ c. insert_row column a' (insert_row column c (ascending column l))) e
  ascending-permuted (Permᴰ.trans p q) h =
      ascending-permuted p h ∙ ascending-permuted q (Apart-permuted p h)

-- The vectors with their positions, from `k` on.
abbrev pub numbered : ℕ → List (List Component) → List Embedding
numbered k [] = []
numbered k (v ∷ vs) = record { index = k; embedding = some v } ∷ numbered (suc k) vs

numbered-later :
    (j k : ℕ) (vs : List (List Component)) → j < k → All (λ y. j ≢ y.index) (numbered k vs)
numbered-later j k [] h = tt
numbered-later j k (v ∷ vs) h = ((λ e. omega arith), numbered-later j (suc k) vs (omega arith))

numbered-Apart : (k : ℕ) (vs : List (List Component)) → Apart (λ y. y.index) (numbered k vs)
numbered-Apart k [] = tt
numbered-Apart k (v ∷ vs) = (numbered-later k (suc k) vs (omega arith), numbered-Apart (suc k) vs)

insert_row-numbered :
    (k : ℕ) (v : List Component) (vs : List (List Component))
    → insert_row (λ y. y.index) (record { index = k; embedding = some v }) (numbered (suc k) vs)
      ≡ numbered k (v ∷ vs)
unfolding insert_row
insert_row-numbered k v [] = refl
insert_row-numbered k v (w ∷ vs) = ground arith

ascending-numbered :
    (k : ℕ) (vs : List (List Component)) → ascending (λ y. y.index) (numbered k vs) ≡ numbered k vs
unfolding ascending
ascending-numbered k [] = refl
ascending-numbered k (v ∷ vs) = rw (ascending-numbered (suc k) vs) (insert_row-numbered k v vs)

vectors_of-numbered : (k : ℕ) (vs : List (List Component)) → vectors_of (numbered k vs) ≡ ok vs
unfolding vectors_of
vectors_of-numbered k [] = refl
vectors_of-numbered k (v ∷ vs) = rw (vectors_of-numbered (suc k) vs) refl

length-numbered : (k : ℕ) (vs : List (List Component)) → length (numbered k vs) ≡ length vs
length-numbered k [] = refl
length-numbered k (v ∷ vs) = ap suc (length-numbered (suc k) vs)

read_data-permuted :
    (items : List Embedding) (vs : List (List Component)) (n : ℕ)
    → Permᴰ (numbered 0 vs) items
    → length vs ≡ n
    → read_data n (some items) ≡ ok vs
unfolding read_data
read_data-permuted items vs n p h =
    rw
      (
        sym (length-permuted p),
        length-numbered 0 vs,
        (==_iff (length vs) n).1 h,
        sym (ascending-permuted (λ y. y.index) p (numbered-Apart 0 vs)),
        ascending-numbered 0 vs,
      )
      (vectors_of-numbered 0 vs)

body_of_success :
    {A : Type 0} (code : String) (malformed : Error) (reply : HttpReply A) (status : ℕ) (a : A)
    → reply ≡ response status (some a)
    → is_success status ≡ true
    → body_of code malformed reply ≡ ok a
unfolding body_of
body_of_success code malformed reply status a answers success = rw answers (rw success refl)

-- When the provider answers with the vector of each text, in any order, and says which is which, `embed`
-- returns the vectors in the order of the texts.
pub embed_in_order :
    (post : List String → HttpReply (Option (List Embedding))) (texts : List String) (status : ℕ)
    (items : List Embedding) (vectors : List (List Component))
    → post texts ≡ response status (some (some items))
    → is_success status ≡ true
    → Permᴰ (numbered 0 vectors) items
    → length vectors ≡ length texts
    → embed post texts ≡ ok vectors
unfolding embed
embed_in_order post [] status items [] answers success p h = refl
embed_in_order post [] status items (v ∷ vs) answers success p h = absurd (omega (arith, h))
embed_in_order post (t ∷ ts) status items vectors answers success p h =
    ap (data_of (length (t ∷ ts)))
      (body_of_success _ _ (post (t ∷ ts)) status (some items) answers success)
    ∙ read_data-permuted items vectors (length (t ∷ ts)) p h
