-- ===== src/Tests/Saving.antt =====
-- The theorems on saves at a fixed store: one row, of an id and a number, and the entity.
use goth_scaffold.Prelude.{
  ℕ, ◌==◌, if◌then◌else◌, ◌≡◌, refl, ap, ◌∙◌, arith, Text, codes, text_eq, [], Option, none, some,
}
use goth_scaffold.Saving.{Store, save_backoffs, save_with_retry, upsert, first_or_create}
use goth_scaffold.Saving.Retries.{SaveTrace, traced, Attempted, save_with_retry-Attempted}
use goth_scaffold.Saving.Upserts.{View, IsStored, Keeps, upsert-IsStored}

record Shelf : Type 0 where
  entity : ℕ × ℕ
  row : Option (ℕ × ℕ)

abbrev first_row : Option (ℕ × ℕ) → Shelf → Option Text × (ℕ × ℕ) × Shelf
first_row none s = (some (codes "not found"), (0, 0), s)
first_row (some t) s = (none, t, s)

abbrev first_into : Option (ℕ × ℕ) → Shelf → Option Text × Shelf
first_into none s = (some (codes "not found"), s)
first_into (some t) s = (none, record { entity = t; row = some t })

abbrev create : Option (ℕ × ℕ) → Shelf → Option Text × Shelf
create none s = (none, record s { row = some s.entity })
create (some t) s = (some (codes "duplicate"), s)

-- A save of the row meets a deadlock each time.
abbrev shelf : Store Shelf Text (ℕ × ℕ)
unfolding text_eq
shelf = record {
  pre_save = λ s. (none, s);
  post_save = λ s. (none, s);
  pre_delete = λ s. (none, s);
  post_delete = λ s. (none, s);
  save_row = λ s. (some (codes "deadlock"), s);
  delete_row = λ s. (none, record s { row = none });
  create_row = λ s. create s.row s;
  save_without_created = λ s. (none, record s { row = some s.entity });
  first_existing = λ s. first_row s.row s;
  first_entity = λ s. first_into s.row s;
  copy_key = λ t s. record s { entity = (t.0, s.entity.1) };
  sleep = λ t s. s;
  is_not_found = text_eq (codes "not found");
  is_duplicate_key = text_eq (codes "duplicate");
  is_retryable = text_eq (codes "deadlock");
}

abbrev row_with : ℕ → Option (ℕ × ℕ) → Option (ℕ × ℕ)
row_with k none = none
row_with k (some t) = if t.0 == k then some t else none

abbrev view : View Shelf (ℕ × ℕ) ℕ
view = record {
  stored = λ s k. row_with k s.row;
  entity = λ s. s.entity;
  key = λ t. t.0;
  Same = λ a b. a ≡ b;
}

row_with-own : (t : ℕ × ℕ) → row_with t.0 (some t) ≡ some t
row_with-own (k, n) = ground arith

first_row-stored :
    (o : Option (ℕ × ℕ)) (s : Shelf)
    → s.row ≡ o
    → (first_row o s).0 ≡ none
    → row_with (first_row o s).1.0 (first_row o s).2.row ≡ some (first_row o s).1
first_row-stored none s h e = absurd (cc e)
first_row-stored (some t) s h e = ap (row_with t.0) h ∙ row_with-own t

first_into-IsStored :
    (o : Option (ℕ × ℕ)) (s : Shelf) → (first_into o s).0 ≡ none → IsStored view (first_into o s).1
first_into-IsStored none s e = absurd (cc e)
first_into-IsStored (some t) s e = record { row = t; is_row = row_with-own t; is_same = refl }

create-IsStored :
    (o : Option (ℕ × ℕ)) (s : Shelf) → (create o s).0 ≡ none → IsStored view (create o s).1
create-IsStored none s e = record { row = s.entity; is_row = row_with-own s.entity; is_same = refl }
create-IsStored (some t) s e = absurd (cc e)

shelf-Keeps : Keeps shelf view
unfolding shelf
shelf-Keeps = record {
  first_existing = λ s e. first_row-stored s.row s refl e;
  first_entity = λ s e. first_into-IsStored s.row s e;
  copied = λ t s. (refl, refl);
  created = λ s e. create-IsStored s.row s e;
  overwritten =
      λ s t h e. (record { row = s.entity; is_row = row_with-own s.entity; is_same = refl }, refl);
  posted = λ s h. (h, refl);
}

abbrev filled : Shelf
filled = record { entity = (0, 9); row = some (4, 8) }

upsert-IsStored_example :
    ((upsert shelf filled).0 ≡ none → IsStored view (upsert shelf filled).1)
    × ((s1 s2 : Shelf) (t : ℕ × ℕ)
        → shelf.pre_save filled ≡ (none, s1)
        → shelf.first_existing s1 ≡ (none, t, s2)
        → (upsert shelf filled).0 ≡ none
        → (upsert shelf filled).1.entity.0 ≡ t.0)
    × ((first_or_create shelf filled).1 ≡ none → IsStored view (first_or_create shelf filled).2)
upsert-IsStored_example = upsert-IsStored shelf view shelf-Keeps filled

-- The row that is found is written over, under its key.
upsert_test : (upsert shelf filled).1.row ≡ some (4, 9)
unfolding upsert shelf text_eq
upsert_test = refl

abbrev start : SaveTrace Shelf Text
start = record { state = filled; trace = [] }

save_with_retry-Attempted_example :
    Attempted shelf save_backoffs start.trace (save_with_retry (traced shelf) start)
save_with_retry-Attempted_example = save_with_retry-Attempted shelf start
