-- ===== src/Repository.antt =====
-- app/repositories/database_repository.go: the queries of a repository with options. `ApplyEager`, which
-- fills the caches of associations and no column, is left out; Lazy models the loads that it calls.
pub mod First
use goth_scaffold.Prelude.{Text, List, [], ◌∷◌, Option, none, some, Result, ok, err, ◌>>=◌}
use goth_scaffold.Queryfilter.Memory.{QueryOption, apply_gorm, apply_filter}

-- What a query returns: `db.Find`, and `db.First` with `ErrRecordNotFound` as no row.
pub record Reads (DB E T K : Type 0) : Type 0 where
  pub find : DB → Result E (List T)
  pub first : DB → Result E (Option T)
  pub where_id : K → DB → DB
  pub where_ids : List K → DB → DB

module _ {DB T : Type 0} where
  -- `_ApplyGorm`
  unfoldable pub apply_gorms : List (QueryOption DB T) → DB → DB
  apply_gorms [] db = db
  apply_gorms (o ∷ opts) db = apply_gorms opts (apply_gorm o db)

  -- `_ApplyFilter`
  unfoldable pub apply_filters : List (QueryOption DB T) → List T → List T
  apply_filters [] items = items
  apply_filters (o ∷ opts) items = apply_filters opts (apply_filter o items)

abbrev pub head_of : {T : Type 0} → List T → Option T
head_of [] = none
head_of (x ∷ xs) = some x

-- The end of `First`, `FirstWhere` and `Fetch`
unfoldable pub first_of : {DB T : Type 0} → List (QueryOption DB T) → Option T → Option T
unfolding apply_filters
first_of opts none = none
first_of opts (some entity) = head_of (apply_filters opts (entity ∷ []))

module _ {DB E T K : Type 0} (r : Reads DB E T K) where
  -- `FindWhere`
  unfoldable pub find_where : (DB → DB) → List (QueryOption DB T) → DB → Result E (List T)
  unfolding apply_gorms apply_filters
  find_where build opts db = do
    items ← r.find (apply_gorms opts (build db))
    ok (apply_filters opts items)

  -- `Find`
  unfoldable pub find : List (QueryOption DB T) → DB → Result E (List T)
  unfolding apply_gorms apply_filters
  find opts db = do items ← r.find (apply_gorms opts db); ok (apply_filters opts items)

  -- `FirstWhere`
  unfoldable pub first_where : (DB → DB) → List (QueryOption DB T) → DB → Result E (Option T)
  unfolding apply_gorms first_of
  first_where build opts db = do
    entity ← r.first (apply_gorms opts (build db))
    ok (first_of opts entity)

  -- `First`
  unfoldable pub first : List (QueryOption DB T) → DB → Result E (Option T)
  unfolding apply_gorms first_of
  first opts db = do entity ← r.first (apply_gorms opts db); ok (first_of opts entity)

  -- `Fetch`
  unfoldable pub fetch : K → List (QueryOption DB T) → DB → Result E (Option T)
  unfolding apply_gorms first_of
  fetch id opts db = do
    entity ← r.first (r.where_id id (apply_gorms opts db))
    ok (first_of opts entity)

  abbrev value_or_none : Result E (Option T) → Option T
  value_or_none (ok x) = x
  value_or_none (err e) = none

  -- `Get`
  unfoldable pub get : K → List (QueryOption DB T) → DB → Option T
  unfolding fetch
  get id opts db = value_or_none (fetch id opts db)

  abbrev items_or_empty : Result E (List T) → List T
  items_or_empty (ok xs) = xs
  items_or_empty (err e) = []

  -- `GetByIDs`
  unfoldable pub get_by_ids : List K → List (QueryOption DB T) → DB → List T
  unfolding find_where
  get_by_ids [] opts db = []
  get_by_ids (id ∷ ids) opts db = items_or_empty (find_where (r.where_ids (id ∷ ids)) opts db)
