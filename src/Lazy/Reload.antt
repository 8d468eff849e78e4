-- ===== src/Lazy/Reload.antt =====
-- app/models/helper_lazy.go: records that were loaded in part, loaded again by their primary keys, which
-- `key` reads. Two keys are compared as `any` values are.
pub mod Rows
use goth_scaffold.Prelude.{
  ℕ, zero, suc, ◌≡◌, refl, sym, subst, ap, ap₂, ◌∙◌, arith, Text, codes, contains, text_eq, Bool,
  true, false, not, ◌||◌, if◌then◌else◌, List, [], ◌∷◌, map, keep, All, Option, none, some,
  Option-cases, is_some, Result, ok, err, ℤ, pos, negsuc, is_empty, inl, inr,
}
use goth_scaffold.Lazy.{has_key}
use goth_scaffold.Lazy.Batch.{IsKey, belongs_to, in_keys}

-- The queriers of the type: `FindById`, which fills the record that it is given in place and leaves it alone
-- where it fails, and `FindByIds`, which gives new records, if there are batch queries
pub record Reloader (K T E : Type 0) : Type 0 where
  pub find_by_id : K → T → Result E T
  pub find_by_ids : Option (List K → Result E (List T))

pub data ReloadError (E : Type 0) : Type 0 where
  no_primary_key no_querier : ReloadError E
  query_failed : E → ReloadError E

module _ {K T E : Type 0} (key : T → Option K) where
  abbrev reloaded_row : Result E T → Result (ReloadError E) T
  reloaded_row (ok row) = ok row
  reloaded_row (err e) = err (query_failed e)

  abbrev reload_by : Option (Reloader K T E) → Option K → T → Result (ReloadError E) T
  reload_by q none item = err no_primary_key
  reload_by none (some k) item = err no_querier
  reload_by (some q) (some k) item = reloaded_row (q.find_by_id k item)

  -- `Reload`
  unfoldable pub reload : Option (Reloader K T E) → T → Result (ReloadError E) T
  reload q item = reload_by q (key item) item

  abbrev reload_next :
      Result (ReloadError E) T
      → T
      → List T
      → List T × Option (ReloadError E)
      → List T × Option (ReloadError E)
  reload_next (err e) item items rest = (item ∷ items, some e)
  reload_next (ok row) item items (rest, e) = (row ∷ rest, e)

  -- The loop of `ReloadAll` without batch queries: an error ends it.
  unfoldable pub reload_each : Option (Reloader K T E) → List T → List T × Option (ReloadError E)
  unfolding reload
  reload_each q [] = ([], none)
  reload_each q (item ∷ items) = reload_next (reload q item) item items (reload_each q items)

abbrev add_id : {K : Type 0} → Option K → List K → List K
add_id none ids = ids
add_id (some k) ids = k ∷ ids

abbrev pub or_row : {T : Type 0} → Option T → Option T → Option T
or_row none row = row
or_row (some later) row = some later

abbrev overwrite : {T : Type 0} → Option T → T → T
overwrite none item = item
overwrite (some row) item = row

module _ {K T : Type 0} (key : T → Option K) where
  -- `_ExtractPrimaryKeys`
  unfoldable pub extract_primary_keys : List T → List K
  extract_primary_keys [] = []
  extract_primary_keys (item ∷ items) = add_id (key item) (extract_primary_keys items)

module _ {K T : Type 0} (same : K → K → Bool) (key : T → Option K) where
  -- `byID[id]`: of two records with one key, the later one
  unfoldable pub by_id : K → List T → Option T
  by_id k [] = none
  by_id k (row ∷ rows) =
      or_row (by_id k rows) (if belongs_to same k (key row) then some row else none)

  -- `*item = *full` replaces the whole record, with what it holds besides its columns.
  abbrev merge_one : List T → Option K → T → T
  unfolding by_id
  merge_one rows none item = item
  merge_one rows (some k) item = overwrite (by_id k rows) item

  -- `_MergeReloadedBack`
  unfoldable pub merge_reloaded_back : List T → List T → List T
  unfolding merge_one
  merge_reloaded_back items [] = items
  merge_reloaded_back items (r ∷ rows) = map (λ item. merge_one (r ∷ rows) (key item) item) items

abbrev batch_of : {K T E : Type 0} → Option (Reloader K T E) → Option (List K → Result E (List T))
batch_of none = none
batch_of (some q) = q.find_by_ids

module _ {K T E : Type 0} (same : K → K → Bool) (key : T → Option K) where
  abbrev pub merge_found : List T → Result E (List T) → List T × Option (ReloadError E)
  unfolding merge_reloaded_back
  merge_found items (err e) = (items, some (query_failed e))
  merge_found items (ok rows) = (merge_reloaded_back same key items rows, none)

  abbrev reload_batch :
      Option (List K → Result E (List T))
      → Option (Reloader K T E)
      → List T
      → List T × Option (ReloadError E)
  unfolding reload_each extract_primary_keys
  reload_batch none q items = reload_each key q items
  reload_batch (some find) q items = merge_found items (find (extract_primary_keys key items))

  -- `ReloadAll`
  unfoldable pub reload_all : Option (Reloader K T E) → List T → List T × Option (ReloadError E)
  unfolding reload_batch
  reload_all q [] = ([], none)
  reload_all q (item ∷ items) = reload_batch (batch_of q) q (item ∷ items)
