-- ===== src/Adapters/Qdrant.antt =====
-- QdrantAdapter of apps/api/app/rag/qdrant_adapter.py.
use placement_assistant.Prelude.{
  ℕ, zero, suc, String, Option, none, some, List, [], ◌∷◌, ◌++◌, Result, ok, err, evidence,
  value_error, ◌==◌, str_eq, if◌then◌else◌,
}
use placement_assistant.Evidence.{Checked, Component, ManifestPoint}
use placement_assistant.Evidence.Text.{text_length}
use placement_assistant.Evidence.Identity.{validate_hash}
use placement_assistant.GenerationService.{Point}
use placement_assistant.Adapters.{HttpReply, failure, response, is_success, body_of}

abbrev pub communication_error : String
communication_error = "QDRANT_COMMUNICATION_ERROR"

-- Only the status of the response matters.
unfoldable pub reply_checked : HttpReply Unit → Checked
unfolding is_success
reply_checked failure = err (evidence communication_error)
reply_checked (response status body) =
    if is_success status then ok tt else err (evidence communication_error)

-- A page of a scroll: items with the id, if it is one, and the payload's chunk_hash; and where the next
-- page begins. An id is never falsy.
pub record Item : Type 0 where
  pub id : Option ℕ
  pub chunk_hash : Option String

pub record Page : Type 0 where
  pub items : List Item
  pub next_page_offset : Option ℕ

-- The requests of the adapter.
pub record Client (Score : Type 0) : Type 0 where
  pub get_collection : String → HttpReply Unit
  pub put_collection : String → ℕ → String → HttpReply Unit
  pub put_points : String → List Point → HttpReply Unit
  pub scroll : String → ℕ → ℕ → Option ℕ → HttpReply Page
  pub search_points : String → List Component → ℕ → Option ℕ → HttpReply (List (Option ℕ × Score))

unfoldable pub qdrant_distance : String → String
qdrant_distance distance =
    if str_eq distance "cosine" then "Cosine" else if str_eq distance "dot" then "Dot" else "Euclid"

unfoldable pub created : Checked → HttpReply Unit → Checked
unfolding reply_checked
created creation failure = err (evidence communication_error)
created creation (response status body) =
    if status == 200
    then ok tt
    else if status == 404
    then creation
    else reply_checked (response status body)

-- The error of the first, or of the second, or the points of both.
abbrev pub together :
    Result (List ManifestPoint) → Result (List ManifestPoint) → Result (List ManifestPoint)
together (err e) rest = err e
together (ok ps) (err e) = err e
together (ok ps) (ok qs) = ok (ps ++ qs)

-- `ManifestPoint(...)`
abbrev manifest_point : ℕ → String → Result (List ManifestPoint)
manifest_point id hash = elim (validate_hash hash) [
  | ok _ ↦ ok (record { point_id = id; chunk_hash = hash } ∷ [])
  | err x ↦ err x
]

-- An item without a hash is passed over, but its id is read.
unfoldable pub read_item : Item → Result (List ManifestPoint)
read_item item = elim item.id [
  | none ↦ err value_error
  | some id ↦ elim item.chunk_hash [
    | none ↦ ok []
    | some hash ↦ if text_length hash == 0 then ok [] else manifest_point id hash
  ]
]

unfoldable pub points_from : List Item → Result (List ManifestPoint)
points_from [] = ok []
points_from (i ∷ is) = together (read_item i) (points_from is)

abbrev pub followed_by :
    Result (List ManifestPoint)
    → Option (Result (List ManifestPoint))
    → Option (Result (List ManifestPoint))
followed_by (err e) rest = some (err e)
followed_by (ok ps) none = none
followed_by (ok ps) (some rest) = some (together (ok ps) rest)

module _ {Score : Type 0} (client : Client Score) where
  unfoldable pub ensure_collection : String → ℕ → String → Checked
  ensure_collection name dimensions distance =
      created (reply_checked (client.put_collection name dimensions (qdrant_distance distance)))
        (client.get_collection name)

  unfoldable pub upsert_points : String → List Point → Checked
  upsert_points name [] = ok tt
  upsert_points name (p ∷ ps) = reply_checked (client.put_points name (p ∷ ps))

  -- One round of the loop, with what the later rounds give for the next page.
  unfoldable pub round :
      (Option ℕ → Option (Result (List ManifestPoint)))
      → Result Page
      → Option (Result (List ManifestPoint))
  round later (err e) = some (err e)
  round later (ok page) = elim page.next_page_offset [
    | none ↦ some (points_from page.items)
    | some offset ↦ followed_by (points_from page.items) (later (some offset))
  ]

  -- `fetch_manifest`, on pages of 100. The fuel counts requests; `none` when it runs out, since the other
  -- side may offer a next page for ever.
  unfoldable pub fetch_pages : ℕ → String → ℕ → Option ℕ → Option (Result (List ManifestPoint))
  fetch_pages zero name generation_id offset = none
  fetch_pages (suc fuel) name generation_id offset =
      let later = fetch_pages fuel name generation_id in
      round later
        (body_of communication_error value_error (client.scroll name 100 generation_id offset))

  unfoldable pub fetch_manifest : ℕ → String → ℕ → Option (Result (List ManifestPoint))
  fetch_manifest fuel name generation_id = fetch_pages fuel name generation_id none

  abbrev scored : List (Option ℕ × Score) → Result (List (ℕ × Score))
  scored [] = ok []
  scored ((none, score) ∷ more) = err value_error
  scored ((some id, score) ∷ more) =
      let rest = scored more in elim rest [ ok found ↦ ok ((id, score) ∷ found) | err e ↦ err e ]

  unfoldable pub search : String → List Component → ℕ → Option ℕ → Result (List (ℕ × Score))
  search name vector limit generation_id =
      elim (body_of communication_error value_error
        (client.search_points name vector limit generation_id)) [
          | ok found ↦ scored found
          | err e ↦ err e
        ]
