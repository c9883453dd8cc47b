-- ===== src/Adapters/Tests.antt =====
-- An index with three points on two pages, and a provider that answers in another order.
use mathlib.Core.List.{Permᴰ}
use placement_assistant.Prelude.{
  ℕ, String, Option, none, some, List, [], ◌∷◌, pos, ok, err, evidence, ◌≡◌, refl, any,
}
use placement_assistant.Rag.Sample.{hash_a}
use placement_assistant.Evidence.{Component, finite}
use placement_assistant.Evidence.Text.{
  text_length, is_space, is_present, is_hex, all_hex, hex_digit, hex_digits, hex, ◌+++◌,
}
use placement_assistant.Evidence.Identity.{validate_hash}
use placement_assistant.Database.{ascending, insert_row}
use placement_assistant.GenerationService.{Point}
use placement_assistant.Adapters.{HttpReply, failure, response, is_success, body_of}
use placement_assistant.Adapters.Qdrant.{
  Item, Page, Client, qdrant_distance, reply_checked, created, read_item, points_from,
  ensure_collection, upsert_points, round, fetch_pages, fetch_manifest, search,
}
use placement_assistant.Adapters.Embedding.{Embedding, vectors_of, read_data, embed}
use placement_assistant.Adapters.Vectors.{embed_in_order}

-- Stands for all the definitions that a run computes with.
unfoldable everything : Unit {0}
unfolding text_length is_space is_present is_hex all_hex hex_digit hex_digits hex ◌+++◌
    validate_hash ascending insert_row is_success body_of qdrant_distance reply_checked created
    read_item points_from ensure_collection upsert_points round fetch_pages fetch_manifest search
    vectors_of read_data embed any
everything = tt

abbrev item : ℕ → Item
item id = record { id = some id; chunk_hash = some hash_a }

abbrev scroll : Option ℕ → HttpReply Page
scroll none = response 200 (some record { items = item 1 ∷ item 2 ∷ []; next_page_offset = some 3 })
scroll (some _) = response 200 (some record { items = item 3 ∷ []; next_page_offset = none })

abbrev client : Client ℕ
client = record {
  get_collection = λ _. response 404 none;
  put_collection = λ _ _ _. response 200 none;
  put_points = λ _ _. failure;
  scroll = λ _ _ _ offset. scroll offset;
  search_points = λ _ _ _ _. response 200 (some ((some 3, 9) ∷ []));
}

abbrev point : Point
point = record {
  point = record { point_id = 1; chunk_hash = hash_a };
  artifact_hash = hash_a;
  source_hash = hash_a;
  text = "text";
  binding_id = 1;
  policy_version_id = 1;
  generation_id = 7;
  vector = [];
}

all_items :
    fetch_manifest client 2 "evidence" 7 ≡ some (points_from (item 1 ∷ item 2 ∷ item 3 ∷ []))
unfolding everything
all_items = refl

too_little_fuel : fetch_manifest client 1 "evidence" 7 ≡ none
unfolding everything
too_little_fuel = refl

collection_created : ensure_collection client "evidence" 1536 "cosine" ≡ ok tt
unfolding everything
collection_created = refl

upsert_refused :
    upsert_points client "evidence" (point ∷ []) ≡ err (evidence "QDRANT_COMMUNICATION_ERROR")
unfolding everything
upsert_refused = refl

found : search client "evidence" [] 5 (some 7) ≡ ok ((3, 9) ∷ [])
unfolding everything
found = refl

abbrev vector : ℕ → List Component
vector n = finite (pos n) 0 ∷ []

abbrev post : List String → HttpReply (Option (List Embedding))
post texts = response 200 (
    some (
      some (
        record { index = 1; embedding = some (vector 5) }
        ∷ record { index = 0; embedding = some (vector 4) }
        ∷ [])))

embed_in_order_example : embed post ("first" ∷ "second" ∷ []) ≡ ok (vector 4 ∷ vector 5 ∷ [])
unfolding is_success
embed_in_order_example =
    embed_in_order post ("first" ∷ "second" ∷ []) 200 _ (vector 4 ∷ vector 5 ∷ []) refl refl
      (Permᴰ.swap refl refl) refl
