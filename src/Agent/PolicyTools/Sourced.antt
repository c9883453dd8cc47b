-- ===== src/Agent/PolicyTools/Sourced.antt =====
-- Where the evidence of a policy search comes from, in m8_search_policy of
-- apps/api/app/agent/m8_policy_tools.py.
use placement_assistant.Prelude.{
  ℕ, String, Bool, true, false, Option, none, some, List, [], ◌∷◌, map, Result, ok, err, Error, ◌≡◌,
  refl, sym, ap, ◌∙◌, ◌⊎◌, inl, inr, arith, All, Has, Has-keep, Has-map, Option-cases, Bool-cases,
}
use placement_assistant.Database.{Db, Principal, PolicyVersion, PolicyStatus, greatest}
use placement_assistant.Evidence.Chunk.{VerifiedEvidence}
use placement_assistant.Rag.{Rag, RagPublishedGeneration}
use placement_assistant.RetrievalService.{Row, retrieve}
use placement_assistant.RetrievalService.Published.{IsPublishedFor}
use placement_assistant.RetrievalService.Rows.{IsRow}
use placement_assistant.RetrievalService.Grounded.{IsGrounded, retrieve-IsGrounded}
use placement_assistant.Agent.PolicyTools.{
  PolicySearchInput, ToolContext, Provider, Index, EvidenceItem, SearchResult, is_in_force,
  active_version, abstain, item_of, result_of, code_of, with_providers, search_policy_via_m6, id_of,
  version_for, search_version, m8_search_policy, tool_context,
}

-- The head of a choice, or what the choice is among.
greatest-cons :
    {A : Type 0} (column : A → ℕ) (y : A) (ys : List A) (x : A)
    → greatest column (y ∷ ys) ≡ some x
    → (y ≡ x) ⊎ (greatest column ys ≡ some x)
unfolding greatest
greatest-cons column y ys x h = ground arith

greatest-Has :
    {A : Type 0} (column : A → ℕ) (xs : List A) (x : A)
    → greatest column xs ≡ some x
    → Has (λ y. y ≡ x) xs
unfolding greatest
greatest-Has column [] x h = absurd (cc h)
greatest-Has column (y ∷ ys) x h = elim (greatest-cons column y ys x h) [
  | inl same ↦ inl same
  | inr later ↦ inr (greatest-Has column ys x later)
]

-- The ACTIVE version with that id, of that institution.
pub record IsInForce (institution_id id : ℕ) (v : PolicyVersion) : Type 0 where
  pub named : v.id ≡ id
  pub owned : v.institution_id ≡ institution_id
  pub active : v.status ≡ PolicyStatus.active

is_in_force-IsInForce :
    (institution_id id : ℕ) (v : PolicyVersion)
    → v.id ≡ id
    → is_in_force institution_id v ≡ true
    → IsInForce institution_id id v
is_in_force-IsInForce institution_id id v named h = record {
  named = named;
  owned = ground arith;
  active = ground arith;
}

active_version-Has :
    (institution_id : ℕ) (db : Db) (id : ℕ)
    → id_of (active_version institution_id db) ≡ some id
    → Has (IsInForce institution_id id) db.policy_versions
unfolding active_version
active_version-Has institution_id db id h = elim (Option-cases (active_version institution_id db)) [
  | inl e ↦ absurd (cc (rw e at h))
  | inr (v, e) ↦
      Has-map _ _
        (λ w (same, passes).
          is_in_force-IsInForce institution_id id w (ap (λ u. u.id) same ∙ cc (rw e at h)) passes)
        db.policy_versions
        (Has-keep (λ w. w ≡ v) (is_in_force institution_id) db.policy_versions
          (greatest-Has (λ w. w.id) _ v e))
]

-- An item of a result: column by column, from a row of the database's tables.
pub record IsCited {Score : Type 0} (institution_id policy_version_id : ℕ) (s : Rag)
    (item : EvidenceItem Score) : Type 0 where
  pub generation : RagPublishedGeneration
  pub published : IsPublishedFor institution_id policy_version_id s generation
  pub row : Row
  pub is_row : IsRow institution_id policy_version_id s generation.generation_id row
  pub text : item.text ≡ row.chunk.content
  pub document_id : item.document_id ≡ row.object.document_id
  pub source_hash : item.source_hash ≡ row.source.source_hash
  pub chunk_hash : item.chunk_hash ≡ row.chunk.chunk_hash
  pub ordinal : item.ordinal ≡ row.chunk.ordinal
  pub page : item.page ≡ row.chunk.page
  pub section : item.section ≡ row.chunk.section

-- The version that a search is about: the one that is given, and only if none is given, one that is in
-- force in the institution.
abbrev pub IsAsked : PolicySearchInput → ℕ → Db → ℕ → Type 0
IsAsked args institution_id db id =
    (args.policy_version_id ≡ some id)
    ⊎ ((args.policy_version_id ≡ none) × Has (IsInForce institution_id id) db.policy_versions)

module _ {Score : Type 0} where
  pub record Abstains (r : SearchResult Score) : Type 0 where
    pub evidence : r.evidence ≡ []
    pub abstained : r.abstained ≡ true

  item-Cited :
      (institution_id policy_version_id : ℕ) (s : Rag) (p : RagPublishedGeneration)
      (e : VerifiedEvidence Score)
      → IsPublishedFor institution_id policy_version_id s p
      → IsGrounded institution_id policy_version_id s p.generation_id e
      → IsCited institution_id policy_version_id s (item_of e)
  unfolding item_of
  item-Cited institution_id policy_version_id s p e there g = record {
    generation = p;
    published = there;
    row = g.row;
    is_row = g.is_row;
    text = g.text;
    document_id = g.citation.document_id;
    source_hash = g.citation.source_hash;
    chunk_hash = g.citation.chunk_hash;
    ordinal = g.citation.ordinal;
    page = g.citation.page;
    section = g.citation.section;
  }

  items-Cited :
      (institution_id policy_version_id : ℕ) (s : Rag) (p : RagPublishedGeneration)
      (es : List (VerifiedEvidence Score))
      → IsPublishedFor institution_id policy_version_id s p
      → All (IsGrounded institution_id policy_version_id s p.generation_id) es
      → All (IsCited institution_id policy_version_id s) (map item_of es)
  items-Cited institution_id policy_version_id s p [] there h = tt
  items-Cited institution_id policy_version_id s p (e ∷ es) there (g, h) = (
    item-Cited institution_id policy_version_id s p e there g,
    items-Cited institution_id policy_version_id s p es there h,
  )

  -- What a search about one version answers.
  abbrev pub Answers : ℕ → ℕ → Rag → SearchResult Score → Type 0
  Answers institution_id policy_version_id s r =
      Abstains r
      ⊎ ((r.abstained ≡ false) × All (IsCited institution_id policy_version_id s) r.evidence)

  abstain-Abstains : (query reason : String) → Abstains (abstain query reason)
  unfolding abstain
  abstain-Abstains query reason = record { evidence = refl; abstained = refl }

  result_of-err : (query : String) (e : Error) → Abstains (result_of query (err e))
  unfolding result_of
  result_of-err query e = abstain-Abstains query (code_of e)

  result_of-Answers :
      (institution_id policy_version_id : ℕ) (s : Rag) (query : String) (provider : Provider)
      (index : Index Score) (r : Result (List (VerifiedEvidence Score)))
      → r ≡ retrieve institution_id policy_version_id provider index query s
      → Answers institution_id policy_version_id s (result_of query r)
  unfolding result_of
  result_of-Answers institution_id policy_version_id s query provider index (err e) h =
      inl (result_of-err query e)
  result_of-Answers institution_id policy_version_id s query provider index (ok es) h = inr (
    refl,
    elim (retrieve-IsGrounded institution_id policy_version_id provider index query s es (sym h)) [
      | inl (nothing, _) ↦ rw nothing tt
      | inr (p, there, grounded) ↦
          items-Cited institution_id policy_version_id s p es there grounded
    ],
  )

  with_providers-Answers :
      (query : String) (institution_id policy_version_id : ℕ) (provider : Option Provider)
      (index : Option (Index Score)) (s : Rag)
      → Answers institution_id policy_version_id s
          (with_providers query institution_id policy_version_id provider index s)
  unfolding with_providers
  with_providers-Answers query institution_id policy_version_id none index s =
      inl (abstain-Abstains query "PROVIDER_UNAVAILABLE")
  with_providers-Answers query institution_id policy_version_id (some provider) none s =
      inl (abstain-Abstains query "PROVIDER_UNAVAILABLE")
  with_providers-Answers query institution_id policy_version_id (some provider) (some index) s =
      result_of-Answers institution_id policy_version_id s query provider index _ refl

  via_m6-Answers :
      (query : String) (institution_id policy_version_id : ℕ) (context : ToolContext Score)
      (s : Rag)
      → Answers institution_id policy_version_id s
          (search_policy_via_m6 query institution_id policy_version_id context s)
  unfolding search_policy_via_m6
  via_m6-Answers query institution_id policy_version_id context s =
      elim (Bool-cases context.has_session) [
        | inl e ↦ rw e (with_providers-Answers query institution_id policy_version_id _ _ s)
        | inr e ↦ rw e (inl (abstain-Abstains query "NO_SESSION"))
      ]

  version_for-IsAsked :
      (args : PolicySearchInput) (context : ToolContext Score) (db : Db) (id : ℕ)
      → version_for args context db ≡ some id
      → IsAsked args context.principal.institution_id db id
  unfolding version_for active_version
  version_for-IsAsked args context db id h = elim (Option-cases args.policy_version_id) [
    | inr (given, e) ↦ inl (rw e (rw e at h))
    | inl e ↦ elim (Bool-cases context.has_session) [
      | inr off ↦ absurd (cc (rw (e, off) at h))
      | inl on ↦
          inr (e, active_version-Has context.principal.institution_id db id (rw (e, on) at h))
    ]
  ]

-- A search always answers. It abstains with no evidence; or it is about the version that was asked for,
-- or, if none was, about one that is in force in the caller's institution, and each item has its text and
-- its citation, column by column, from a chunk of that institution, of the run that a generation indexed
-- which the institution publishes for a binding to that version, and from the binding's source.
pub m8_search_policy-Answers :
    {Score : Type 0} (args : PolicySearchInput) (context : ToolContext Score) (db : Db) (s : Rag)
    → Abstains (m8_search_policy args context db s)
      ⊎ ((id : ℕ) × IsAsked args context.principal.institution_id db id
          × Answers context.principal.institution_id id s (m8_search_policy args context db s))
unfolding m8_search_policy search_version
m8_search_policy-Answers args context db s = elim (Option-cases (version_for args context db)) [
  | inl e ↦ inl (rw e (abstain-Abstains args.query "NO_ACTIVE_POLICY"))
  | inr (id, e) ↦ inr (
    id,
    version_for-IsAsked args context db id e,
    rw e (via_m6-Answers args.query context.principal.institution_id id context s),
  )
]

search_version_unwired :
    {Score : Type 0} (query : String) (p : Principal) (has_session : Bool) (s : Rag) (id : Option ℕ)
    → Abstains (search_version {Score = Score} query (tool_context p has_session) s id)
unfolding search_version search_policy_via_m6 with_providers tool_context
search_version_unwired query p has_session s none = abstain-Abstains query "NO_ACTIVE_POLICY"
search_version_unwired query p true s (some id) = abstain-Abstains query "PROVIDER_UNAVAILABLE"
search_version_unwired query p false s (some id) = abstain-Abstains query "NO_SESSION"

-- With a context of the class ToolContext, which has neither a provider nor an index, every search
-- abstains.
pub m8_search_policy_unwired :
    {Score : Type 0} (args : PolicySearchInput) (p : Principal) (has_session : Bool) (db : Db)
    (s : Rag)
    → Abstains (m8_search_policy {Score = Score} args (tool_context p has_session) db s)
unfolding m8_search_policy
m8_search_policy_unwired {Score} args p has_session db s =
    search_version_unwired args.query p has_session s
      (version_for args (tool_context {Score = Score} p has_session) db)
