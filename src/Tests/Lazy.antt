-- ===== src/Tests/Lazy.antt =====
-- The theorems on associations at fixed inputs: a child is its foreign key and its number.
use goth_scaffold.Prelude.{
  ℕ, ◌==◌, ==_iff, ◌≡◌, refl, sym, ap, arith, Bool, true, Text, codes, List, [], ◌∷◌, map, keep,
  All, Option, none, some, Result, ok, err, inr,
}
use goth_scaffold.Lazy.{
  nil_pointer, value, Parent, Querier, lazy_has_many, eager_has_many, has_key, wanted_key,
}
use goth_scaffold.Lazy.Batch.{IsKey, in_keys}
use goth_scaffold.Lazy.Transparent.{rows_of, Answers, eager_has_many-transparent}
use goth_scaffold.Lazy.Failed.{or_nothing, eager_has_many-failed}
use goth_scaffold.Lazy.BelongsTo.{
  Owner, Finder, lazy_belongs_to, eager_belongs_to, child_by_id, found,
}
use goth_scaffold.Lazy.BelongsTo.Laws.{Reads, eager_belongs_to-transparent}
use goth_scaffold.Lazy.Composite.{
  same_composite, eager_has_many_composite, eager_has_many_composite-transparent,
}
use goth_scaffold.Lazy.Reload.{Reloader, by_id, reload_all, reload_each}
use goth_scaffold.Lazy.Reload.Rows.{Parts, ReadsTable, Present, reload_all-reload_each}

abbrev is_zero : ℕ → Bool
is_zero n = n == 0

-- The same function gives the same.
applied : {A B : Type 0} (f g : A → B) (a : A) → some f ≡ some g → g a ≡ f a
applied f g a e = let same : f ≡ g = cc e in ap (λ h. h a) (sym same)

numbers : IsKey ◌==◌
numbers = record { same_iff = ==_iff }

abbrev foreign_key : ℕ × ℕ → Option ℕ
foreign_key (k, n) = some k

abbrev children : List (ℕ × ℕ)
children = (1, 10) ∷ (2, 20) ∷ (1, 11) ∷ []

abbrev parents : List (Parent ℕ (ℕ × ℕ))
parents =
    record { ref = value 1; cache = none }
    ∷ record { ref = nil_pointer; cache = none }
    ∷ record { ref = value 2; cache = some [] }
    ∷ record { ref = value 1; cache = none }
    ∷ []

abbrev find_in : List ℕ → List (ℕ × ℕ) × Option Text
find_in keys = (keep (λ c. in_keys ◌==◌ keys (foreign_key c)) children, none)

abbrev child_querier : Querier ℕ (ℕ × ℕ) Text
child_querier = record {
  find_has_many = λ k. ok (rows_of ◌==◌ foreign_key children k);
  find_has_many_in = some find_in;
}

child_querier-Answers : Answers ◌==◌ foreign_key child_querier children
child_querier-Answers = record { single = λ k. refl; batch = λ find e keys. applied _ _ keys e }

eager_has_many-transparent_example :
    map
      (lazy_has_many (some child_querier))
      (eager_has_many ◌==◌ is_zero (some child_querier) foreign_key parents)
    ≡ map (lazy_has_many (some child_querier)) parents
eager_has_many-transparent_example =
    eager_has_many-transparent ◌==◌ is_zero numbers foreign_key child_querier children
      child_querier-Answers parents

abbrev find_fails : List ℕ → List (ℕ × ℕ) × Option Text
find_fails keys = ([], some (codes "timeout"))

abbrev failing_querier : Querier ℕ (ℕ × ℕ) Text
failing_querier = record {
  find_has_many = λ k. ok (rows_of ◌==◌ foreign_key children k);
  find_has_many_in = some find_fails;
}

eager_has_many-failed_example :
    map
      (λ p. (lazy_has_many (some failing_querier) p).0)
      (eager_has_many ◌==◌ is_zero (some failing_querier) foreign_key parents)
    ≡ map
        (λ p. or_nothing (wanted_key ◌==◌ is_zero p) (lazy_has_many (some failing_querier) p).0)
        parents
eager_has_many-failed_example =
    eager_has_many-failed ◌==◌ is_zero numbers foreign_key failing_querier find_fails parents refl
      (λ keys. refl)

abbrev owners : List (Owner (ℕ × ℕ))
owners =
    record { foreign_key = value 2; cache = none }
    ∷ record { foreign_key = nil_pointer; cache = none }
    ∷ record { foreign_key = value 0; cache = none }
    ∷ record { foreign_key = value 2; cache = none }
    ∷ []

abbrev id_of : ℕ × ℕ → ℕ
id_of (k, n) = k

abbrev one_found : Option (ℕ × ℕ) → Result Text (ℕ × ℕ)
one_found (some c) = ok c
one_found none = err (codes "not found")

abbrev rows : List (ℕ × ℕ)
rows = (2, 20) ∷ (3, 30) ∷ []

abbrev owner_finder : Finder (ℕ × ℕ) Text
owner_finder = record {
  find_by_id = λ id. one_found (child_by_id id_of id rows);
  find_by_ids = some (λ ids. ok (keep (λ c. has_key ◌==◌ (id_of c) ids) rows));
}

found-one_found : (o : Option (ℕ × ℕ)) → found (one_found o) ≡ o
found-one_found (some c) = refl
found-one_found none = refl

owner_finder-Reads : Reads id_of owner_finder rows
owner_finder-Reads = record {
  single = λ id. found-one_found (child_by_id id_of id rows);
  batch = λ find ids e. inr (applied _ _ ids e);
}

eager_belongs_to-transparent_example :
    map
      (lazy_belongs_to true (some owner_finder))
      (eager_belongs_to (some owner_finder) id_of owners)
    ≡ map (lazy_belongs_to true (some owner_finder)) owners
eager_belongs_to-transparent_example =
    eager_belongs_to-transparent id_of owner_finder rows owner_finder-Reads owners

abbrev grid : List (List ℕ × ℕ)
grid = ((1 ∷ 2 ∷ []), 10) ∷ ((1 ∷ 3 ∷ []), 11) ∷ []

abbrev cell : List ℕ × ℕ → List ℕ
cell (key, n) = key

abbrev cell_key : List ℕ × ℕ → Option (List ℕ)
cell_key c = some (cell c)

abbrev cell_querier : Querier (List ℕ) (List ℕ × ℕ) Text
cell_querier = record {
  find_has_many = λ k. ok (rows_of same_composite cell_key grid k);
  find_has_many_in =
      some (λ keys. (keep (λ c. in_keys same_composite keys (cell_key c)) grid, none));
}

cell_querier-Answers : Answers same_composite cell_key cell_querier grid
cell_querier-Answers = record { single = λ k. refl; batch = λ find e keys. applied _ _ keys e }

abbrev cells : List (Parent (List ℕ) (List ℕ × ℕ))
cells =
    record { ref = value (1 ∷ 3 ∷ []); cache = none }
    ∷ record { ref = value (0 ∷ 3 ∷ []); cache = none }
    ∷ []

eager_has_many_composite-transparent_example :
    map
      (lazy_has_many (some cell_querier))
      (eager_has_many_composite (codes "A, B") (codes "X,Y") (some cell_querier) cell cells)
    ≡ map (lazy_has_many (some cell_querier)) cells
eager_has_many_composite-transparent_example =
    eager_has_many_composite-transparent (codes "A, B") (codes "X,Y") cell_querier cell grid cells
      cell_querier-Answers

-- A record of a key, a number and what is loaded of its associations
abbrev record_key : ℕ × ℕ × ℕ → Option ℕ
record_key (k, n, loaded) = some k

abbrev records : List (ℕ × ℕ × ℕ)
records = (2, 20, 0) ∷ (3, 30, 0) ∷ []

abbrev record_parts : Parts (ℕ × ℕ × ℕ) (ℕ × ℕ) ℕ
record_parts = record { columns = λ r. (r.0, r.1); in_memory = λ r. r.2 }

-- The columns of a row, in the record that was there
abbrev fill : Option (ℕ × ℕ × ℕ) → ℕ × ℕ × ℕ → Result Text (ℕ × ℕ × ℕ)
fill none item = err (codes "not found")
fill (some (k, n, m)) (i, j, loaded) = ok (k, n, loaded)

abbrev record_reloader : Reloader ℕ (ℕ × ℕ × ℕ) Text
record_reloader = record {
  find_by_id = λ k item. fill (by_id ◌==◌ record_key k records) item;
  find_by_ids = some (λ ks. ok (keep (λ row. in_keys ◌==◌ ks (record_key row)) records));
}

records_fresh :
    (k : ℕ) (rows : List (ℕ × ℕ × ℕ))
    → All (λ r. r.2 ≡ 0) rows
    → (row : ℕ × ℕ × ℕ) → by_id ◌==◌ record_key k rows ≡ some row
    → row.2 ≡ 0
unfolding by_id
records_fresh k [] h row e = absurd (cc e)
records_fresh k (r ∷ rows) h row e = ground (arith, records_fresh k rows h.1 row, h.0)

record_reloader-ReadsTable : ReadsTable ◌==◌ record_key record_parts 0 record_reloader records
record_reloader-ReadsTable = record {
  one = λ k row item e. ((row.0, row.1, item.2), ap (λ o. fill o item) e, refl, refl);
  many = λ find e ks. applied _ _ ks e;
  fresh = λ k row e. records_fresh k records (refl, (refl, tt)) row e;
}

abbrev partial : List (ℕ × ℕ × ℕ)
partial = (3, 0, 7) ∷ (2, 0, 0) ∷ []

partial-Present : All (Present ◌==◌ record_key records) partial
unfolding by_id
partial-Present = (
  record { id = 3; row = (3, 30, 0); has_id = refl; is_row = refl },
  (record { id = 2; row = (2, 20, 0); has_id = refl; is_row = refl }, tt),
)

reload_all-reload_each_example :
    let all = reload_all ◌==◌ record_key (some record_reloader) partial in
    let each = reload_each record_key (some record_reloader) partial in
    (all.1 ≡ none)
    × (each.1 ≡ none)
    × (map record_parts.columns all.0 ≡ map record_parts.columns each.0)
    × (map record_parts.in_memory each.0 ≡ map record_parts.in_memory partial)
    × (map record_parts.in_memory all.0 ≡ map (λ x. 0) partial)
reload_all-reload_each_example =
    reload_all-reload_each ◌==◌ numbers record_key record_parts 0 record_reloader records
      record_reloader-ReadsTable partial
      (λ ks. ok (keep (λ row. in_keys ◌==◌ ks (record_key row)) records)) refl partial-Present
