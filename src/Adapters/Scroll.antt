-- ===== src/Adapters/Scroll.antt =====
-- The loop of `fetch_manifest` in apps/api/app/rag/qdrant_adapter.py ends with the last page.
use placement_assistant.Prelude.{ℕ, suc, String, true, Option, none, some, List, ◌++◌, ◌≡◌}
use placement_assistant.Adapters.{response, is_success}
use placement_assistant.Adapters.Qdrant.{Item, Client}

module _ {Score : Type 0} (client : Client Score) (name : String) (generation_id : ℕ) where
  -- What the other side has from an offset on: pages of these items, and how many pages.
  pub data Pages : Option ℕ → List Item → ℕ → Type 0 where
    last_page :
        {offset : Option ℕ} {status : ℕ} {items : List Item}
        → client.scroll name 100 generation_id offset
          ≡ response status (some record { items = items; next_page_offset = none })
        → is_success status ≡ true
        → Pages offset items 1
    page_before :
        {offset : Option ℕ} {status next pages : ℕ} {items more : List Item}
        → client.scroll name 100 generation_id offset
          ≡ response status (some record { items = items; next_page_offset = some next })
        → is_success status ≡ true
        → Pages (some next) more pages
        → Pages offset (items ++ more) (suc pages)
