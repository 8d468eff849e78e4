-- ===== src/Lazy/BelongsTo.antt =====
-- app/models/helper_lazy.go: belongs-to associations, on first access and ahead. `has_resolve` tells whether
-- the type of the foreign key has a method `Resolve`, which then calls `ResolveById`. Ids are the numbers that
-- `_ExtractUint64` gives.
pub mod Laws
use goth_scaffold.Prelude.{
  ℕ, ◌==◌, Bool, true, false, if◌then◌else◌, List, [], ◌∷◌, map, any, Option, none, some, is_some,
  Result, ok, err,
}
use goth_scaffold.Lazy.{Ref, nil_pointer, value, wanted_keys}

-- A record with a belongs-to association: nil in the cache is `none`.
pub record Owner (C : Type 0) : Type 0 where
  pub foreign_key : Ref ℕ
  pub cache : Option C

-- The querier of the children's type: `FindById`, and `FindByIds`, where it has batch queries.
pub record Finder (C E : Type 0) : Type 0 where
  pub find_by_id : ℕ → Result E C
  pub find_by_ids : Option (List ℕ → Result E (List C))

module _ {C E : Type 0} where
  abbrev pub found : Result E C → Option C
  found (ok c) = some c
  found (err e) = none

  -- `ResolveById`
  unfoldable pub resolve_by_id : Option (Finder C E) → ℕ → Option C
  resolve_by_id none id = none
  resolve_by_id (some q) id = if id == 0 then none else found (q.find_by_id id)

  -- `ResolveBelongsTo`
  unfoldable pub resolve_belongs_to : Bool → Option (Finder C E) → Ref ℕ → Option C
  unfolding resolve_by_id
  resolve_belongs_to has_resolve q nil_pointer = none
  resolve_belongs_to has_resolve q (value id) = if has_resolve then resolve_by_id q id else none

  -- `LazyBelongsTo`, without options: what it returns is what the cache then holds.
  unfoldable pub lazy_belongs_to : Bool → Option (Finder C E) → Owner C → Owner C
  unfolding resolve_belongs_to
  lazy_belongs_to has_resolve q p =
      if is_some p.cache
      then p
      else record p { cache = resolve_belongs_to has_resolve q p.foreign_key }

abbrev pub nonzero_id : Ref ℕ → Option ℕ
nonzero_id nil_pointer = none
nonzero_id (value id) = if id == 0 then none else some id

module _ {C : Type 0} where
  unfoldable pub wanted_id : Owner C → Option ℕ
  wanted_id p = if is_some p.cache then none else nonzero_id p.foreign_key

  abbrev pub or_later : Option C → Option C → Option C
  or_later earlier (some c) = some c
  or_later earlier none = earlier

  -- `childByID[id]`: of the rows with one id the last stays.
  unfoldable pub child_by_id : (C → ℕ) → ℕ → List C → Option C
  child_by_id id_of id [] = none
  child_by_id id_of id (c ∷ rows) =
      or_later (if id == id_of c then some c else none) (child_by_id id_of id rows)

  abbrev pub assign_child : (C → ℕ) → List C → Option ℕ → Owner C → Owner C
  assign_child id_of rows none p = p
  assign_child id_of rows (some id) p = record p { cache = child_by_id id_of id rows }

  abbrev pub assign_rows :
      {E : Type 0} → (C → ℕ) → Result E (List C) → List (Owner C) → List (Owner C)
  assign_rows id_of (err e) items = items
  assign_rows id_of (ok rows) items = map (λ p. assign_child id_of rows (wanted_id p) p) items

  abbrev pub load_ids :
      {E : Type 0}
      → (C → ℕ)
      → List ℕ
      → (List ℕ → Result E (List C))
      → List (Owner C)
      → List (Owner C)
  load_ids id_of [] find items = items
  load_ids id_of (id ∷ ids) find items = assign_rows id_of (find (id ∷ ids)) items

  abbrev pub load_owners :
      {E : Type 0} → (C → ℕ) → Option (List ℕ → Result E (List C)) → List (Owner C) → List (Owner C)
  load_owners id_of none items = items
  load_owners id_of (some find) items =
      load_ids id_of (wanted_keys ◌==◌ wanted_id items []) find items

  -- `_EagerBelongsTo`
  unfoldable pub eager_belongs_to :
      {E : Type 0} → Option (Finder C E) → (C → ℕ) → List (Owner C) → List (Owner C)
  unfolding wanted_keys wanted_id child_by_id
  eager_belongs_to none id_of items = items
  eager_belongs_to (some q) id_of items = load_owners id_of q.find_by_ids items
