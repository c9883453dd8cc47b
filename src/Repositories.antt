-- ===== src/Repositories.antt =====
-- The repositories of apps/api/app/infrastructure/repositories/base.py. Each reads and writes the
-- rows of one institution in one table.
pub mod Tables
use placement_assistant.Prelude.{
  ℕ, Bool, true, false, not, ◌&&◌, Option, List, [], ◌∷◌, ◌++◌, keep, any, replace, Result, Action,
  ◌>>=◌, ◌>>◌, pure, raise_if, modify, value_error, ◌==◌, if◌then◌else◌,
}
use placement_assistant.Database.{Db, one_or_none}

-- A table: its two columns that every query names, and where its rows are.
pub record Table (A : Type 0) : Type 0 where
  pub id_of : A → ℕ
  pub institution_of : A → ℕ
  pub rows : Db → List A
  pub put : List A → Db → Db

module _ {A : Type 0} (table : Table A) (institution_id : ℕ) where
  unfoldable pub in_tenant : ℕ → A → Bool
  in_tenant id r = table.institution_of r == institution_id && table.id_of r == id

  unfoldable pub get_by_id : ℕ → Action Db (Option A)
  get_by_id id db = (one_or_none (keep (in_tenant id) (table.rows db)), db)

  unfoldable pub exists_row : ℕ → Db → Bool
  exists_row id db = any (in_tenant id) (table.rows db)

  -- `create`, `append` and `create_version`, of a row that was built with the repository's
  -- institution.
  unfoldable pub insert : A → Action Db A
  insert r = do modify (λ db. table.put (table.rows db ++ r ∷ []) db); pure r

  -- `update` and `transition_lifecycle`: the row, found by its primary key, is changed by `f`.
  unfoldable pub update : (A → A) → A → Action Db A
  update f r = do
    raise_if (not (table.institution_of r == institution_id)) value_error
    modify (λ db. table.put (replace (λ x. table.id_of x == table.id_of r) f (table.rows db)) db)
    pure (f r)

  delete : A → Action Db Unit
  delete r = do
    raise_if (not (table.institution_of r == institution_id)) value_error
    modify (λ db. table.put (keep (λ x. not (table.id_of x == table.id_of r)) (table.rows db)) db)
