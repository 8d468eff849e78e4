-- ===== src/Lazy.antt =====
-- app/models/helper_lazy.go: associations that are loaded on first access, one record at a time, or
-- ahead for many records with one query. Reflection on the models is a parameter: a record has the
-- value of its reference field and the cache of the association, a child has its foreign key.
pub mod Batch
pub mod Transparent
pub mod Failed
pub mod BelongsTo
pub mod Composite
pub mod Meta
pub mod Loading
pub mod Scope
pub mod Reload
pub mod Dispatch
use goth_scaffold.Prelude.{
  Bool, true, false, not, if◌then◌else◌, List, [], ◌∷◌, ◌++◌, map, any, Option, none, some, is_some,
  Result, ok, err,
}

-- A field that holds a key, or a pointer to one.
pub data Ref (K : Type 0) : Type 0 where
  nil_pointer : Ref K
  value : K → Ref K

-- A record with a has-many association: nil in the cache is `none`.
pub record Parent (K C : Type 0) : Type 0 where
  pub ref : Ref K
  pub cache : Option (List C)

-- The querier of the children's type: `FindHasMany`, and `FindHasManyIn`, where it has batch queries,
-- with what is read where the query fails.
pub record Querier (K C E : Type 0) : Type 0 where
  pub find_has_many : K → Result E (List C)
  pub find_has_many_in : Option (List K → List C × Option E)

abbrev pub set_cache : {K C : Type 0} → List C → Parent K C → Parent K C
set_cache children p = record p { cache = some children }

module _ {K C E : Type 0} where
  -- The query of `LazyHasMany`; where it fails nothing is kept.
  abbrev load_has_many : Option (Querier K C E) → Ref K → Parent K C → List C × Parent K C
  load_has_many q nil_pointer p = ([], set_cache [] p)
  load_has_many none (value k) p = ([], p)
  load_has_many (some q) (value k) p = elim (q.find_has_many k) [
    | ok children ↦ (children, set_cache children p)
    | err e ↦ ([], p)
  ]

  -- `LazyHasMany` of a single foreign key, without options: what it returns, and the record. No
  -- querier may be registered.
  unfoldable pub lazy_has_many : Option (Querier K C E) → Parent K C → List C × Parent K C
  lazy_has_many q p = elim p.cache [
    | some children ↦ (children, p)
    | none ↦ load_has_many q p.ref p
  ]

-- The maps of the batch queries: their keys are compared by `same`.
module _ {K : Type 0} (same : K → K → Bool) where
  abbrev pub has_key : K → List K → Bool
  has_key k keys = any (same k) keys

  -- `if _, exists := keyToItems[key]; !exists { … }`
  abbrev pub add_key : K → List K → List K
  add_key k keys = if has_key k keys then keys else keys ++ (k ∷ [])

  module _ {C : Type 0} where
    -- `groupByKey[key] = append(groupByKey[key], c)`, made where it is missing
    unfoldable pub add_child : K → C → List (K × List C) → List (K × List C)
    add_child k c [] = (k, c ∷ []) ∷ []
    add_child k c ((j, group) ∷ groups) =
        let rest = add_child k c groups in
        if same k j then (j, group ++ (c ∷ [])) ∷ groups else (j, group) ∷ rest

    -- A child whose key is a nil pointer is passed over.
    abbrev pub add_keyed : Option K → C → List (K × List C) → List (K × List C)
    add_keyed none c groups = groups
    add_keyed (some k) c groups = add_child k c groups

    -- The loop over the rows
    unfoldable pub group_by_key : (C → Option K) → List C → List (K × List C) → List (K × List C)
    unfolding add_child
    group_by_key key_of [] groups = groups
    group_by_key key_of (c ∷ children) groups =
        group_by_key key_of children (add_keyed (key_of c) c groups)

    -- `groupByKey[key]`, or the empty slice
    unfoldable pub group_of : K → List (K × List C) → List C
    group_of k [] = []
    group_of k ((j, group) ∷ groups) =
        let rest = group_of k groups in if same k j then group else rest

  abbrev pub add_wanted : Option K → List K → List K
  add_wanted none keys = keys
  add_wanted (some k) keys = add_key k keys

  -- The keys of the records that are to be loaded, each once, in the order of the records
  unfoldable pub wanted_keys : {P : Type 0} → (P → Option K) → List P → List K → List K
  wanted_keys wanted [] keys = keys
  wanted_keys wanted (p ∷ items) keys = wanted_keys wanted items (add_wanted (wanted p) keys)

  module _ {P C : Type 0} (wanted : P → Option K) (fill : List C → P → P) where
    abbrev pub fill_wanted : Option K → List (K × List C) → P → P
    fill_wanted none groups p = p
    fill_wanted (some k) groups p = fill (group_of k groups) p

    -- The call of `SetCache…` on one record
    unfoldable pub fill_one : List (K × List C) → P → P
    unfolding group_of
    fill_one groups p = fill_wanted (wanted p) groups p

    -- Behind the keys
    unfoldable pub load_keys :
        {E : Type 0} → (C → Option K) → List K → (List K → List C × Option E) → List P → List P
    unfolding group_by_key fill_one
    load_keys key_of [] find items = items
    load_keys key_of (k ∷ keys) find items =
        map (fill_one (group_by_key key_of (find (k ∷ keys)).0 [])) items

    -- The whole of a batch load, with the querier's batch query, if it has one
    unfoldable pub load_batch :
        {E : Type 0} → (C → Option K) → Option (List K → List C × Option E) → List P → List P
    unfolding wanted_keys load_keys
    load_batch key_of none items = items
    load_batch key_of (some find) items = load_keys key_of (wanted_keys wanted items []) find items

module _ {K : Type 0} (same : K → K → Bool) (is_zero : K → Bool) where
  abbrev nonzero : Ref K → Option K
  nonzero nil_pointer = none
  nonzero (value k) = if is_zero k then none else some k

  -- The key of a record whose cache is nil and whose reference is neither nil nor zero
  unfoldable pub wanted_key : {C : Type 0} → Parent K C → Option K
  wanted_key p = if is_some p.cache then none else nonzero p.ref

  -- `_EagerHasMany`
  unfoldable pub eager_has_many :
      {C E : Type 0}
      → Option (Querier K C E)
      → (C → Option K)
      → List (Parent K C)
      → List (Parent K C)
  unfolding load_batch wanted_key
  eager_has_many none key_of items = items
  eager_has_many (some q) key_of items =
      load_batch same wanted_key set_cache key_of q.find_has_many_in items
