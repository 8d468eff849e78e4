-- ===== src/Lazy/Reload/Rows.antt =====
-- app/models/helper_lazy.go: the reload of all records against that of each.
use goth_scaffold.Prelude.{
  ◌≡◌, refl, sym, subst, ap, ap₂, ◌∙◌, arith, Bool, true, List, [], ◌∷◌, map, keep, All, Option,
  none, some, Option-cases, Result, ok, inl, inr,
}
use goth_scaffold.Lazy.{has_key}
use goth_scaffold.Lazy.Batch.{IsKey, belongs_to, in_keys, map-map}
use goth_scaffold.Lazy.Reload.{
  Reloader, add_id, overwrite, extract_primary_keys, by_id, merge_one, merge_reloaded_back,
  merge_found, reload, reload_each, reload_batch, reload_all,
}

-- A record by its columns and by what it holds in memory only, such as loaded associations
pub record Parts (T C M : Type 0) : Type 0 where
  pub columns : T → C
  pub in_memory : T → M

-- The queriers read one table: a row by its key is written over the columns of the record, whose other
-- fields stay; the rows with one of the keys are new records, with nothing in memory.
pub record ReadsTable {K T E C M : Type 0} (same : K → K → Bool) (key : T → Option K)
    (parts : Parts T C M) (empty : M) (q : Reloader K T E) (table : List T) : Type 0 where
  pub one :
      (k : K) (row item : T)
      → by_id same key k table ≡ some row
      → (filled : T) × (q.find_by_id k item ≡ ok filled)
        × (parts.columns filled ≡ parts.columns row)
        × (parts.in_memory filled ≡ parts.in_memory item)
  pub many :
      (find : List K → Result E (List T))
      → q.find_by_ids ≡ some find
      → (ks : List K) → find ks ≡ ok (keep (λ row. in_keys same ks (key row)) table)
  pub fresh : (k : K) (row : T) → by_id same key k table ≡ some row → parts.in_memory row ≡ empty

-- A record with a key whose row is in the table
pub record Present {K T : Type 0} (same : K → K → Bool) (key : T → Option K) (table : List T)
    (item : T) : Type 0 where
  pub id : K
  pub row : T
  pub has_id : key item ≡ some id
  pub is_row : by_id same key id table ≡ some row

module _ {K T : Type 0} (same : K → K → Bool) (is_key : IsKey same) (key : T → Option K) where
  belongs_to-in_keys :
      (k : K) (ks : List K) (o : Option K)
      → has_key same k ks ≡ true
      → belongs_to same k o ≡ true
      → in_keys same ks o ≡ true
  belongs_to-in_keys k ks none h b = absurd (cc b)
  belongs_to-in_keys k ks (some j) h b =
      subst (λ i. has_key same i ks ≡ true) ((is_key.same_iff k j).0 b) h

  by_id-keep :
      (k : K) (ks : List K) (table : List T)
      → has_key same k ks ≡ true
      → by_id same key k (keep (λ row. in_keys same ks (key row)) table) ≡ by_id same key k table
  unfolding by_id
  by_id-keep k ks [] h = refl
  by_id-keep k ks (row ∷ table) h =
      ground (arith, by_id-keep k ks table h, belongs_to-in_keys k ks (key row) h)

  merge_one-nil : (o : Option K) (item : T) → merge_one same key [] o item ≡ item
  unfolding by_id
  merge_one-nil none item = refl
  merge_one-nil (some k) item = refl

  map_merge-nil :
      (items : List T) → map (λ item. merge_one same key [] (key item) item) items ≡ items
  map_merge-nil [] = refl
  map_merge-nil (item ∷ items) =
      ap₂ (λ x xs. x ∷ xs) (merge_one-nil (key item) item) (map_merge-nil items)

  merge_reloaded_back-map :
      (items rows : List T)
      → merge_reloaded_back same key items rows
        ≡ map (λ item. merge_one same key rows (key item) item) items
  unfolding merge_reloaded_back
  merge_reloaded_back-map items [] = sym (map_merge-nil items)
  merge_reloaded_back-map items (r ∷ rows) = refl

  -- The key of a record, if any, is one of these.
  abbrev KeyIn : List K → T → Type 0
  KeyIn ks item = (k : K) → key item ≡ some k → has_key same k ks ≡ true

  merge_keep :
      (ks : List K) (table items : List T)
      → All (KeyIn ks) items
      → map
          (λ item.
            merge_one same key (keep (λ row. in_keys same ks (key row)) table) (key item) item)
          items
        ≡ map (λ item. merge_one same key table (key item) item) items
  unfolding merge_one
  merge_keep ks table [] h = refl
  merge_keep ks table (item ∷ items) h =
      ap₂ (λ x xs. x ∷ xs)
        (elim (Option-cases (key item)) [
          | inl e ↦ rw (e) refl
          | inr (k, e) ↦ rw (e) (ap (λ o. overwrite o item) (by_id-keep k ks table (h.0 k e)))
        ])
        (merge_keep ks table items h.1)

  KeyIn-wider :
      (o : Option K) (ks : List K) (items : List T)
      → All (KeyIn ks) items
      → All (KeyIn (add_id o ks)) items
  KeyIn-wider o ks [] h = tt
  KeyIn-wider none ks (item ∷ items) h = h
  KeyIn-wider (some j) ks (item ∷ items) h =
      (λ k e. ground (arith, h.0 k e), KeyIn-wider (some j) ks items h.1)

  KeyIn-first :
      (o : Option K) (k : K) (ks : List K) → o ≡ some k → has_key same k (add_id o ks) ≡ true
  KeyIn-first none k ks e = absurd (cc e)
  KeyIn-first (some j) k ks e = ground (arith, e, is_key.same_iff k j)

  extract_primary_keys-KeyIn : (items : List T) → All (KeyIn (extract_primary_keys key items)) items
  unfolding extract_primary_keys
  extract_primary_keys-KeyIn [] = tt
  extract_primary_keys-KeyIn (item ∷ items) = (
    λ k e. KeyIn-first (key item) k (extract_primary_keys key items) e,
    KeyIn-wider (key item) (extract_primary_keys key items) items
        (extract_primary_keys-KeyIn items),
  )

  merge_one-row :
      (table : List T) (item : T) (here : Present same key table item)
      → merge_one same key table (key item) item ≡ here.row
  unfolding merge_one
  merge_one-row table item here = rw (here.has_id, here.is_row) refl

module _ {K T E C M : Type 0} (same : K → K → Bool) (is_key : IsKey same) (key : T → Option K)
    (parts : Parts T C M) (empty : M) (q : Reloader K T E) (table : List T)
    (reads : ReadsTable same key parts empty q table) where
  abbrev merged : T → T
  merged item = merge_one same key table (key item) item

  -- What the reload of each does: no error, the columns of the rows, and all else as it was
  record EachReloaded (items : List T) : Type 0 where
    no_error : (reload_each key (some q) items).1 ≡ none
    same_columns :
        map parts.columns (reload_each key (some q) items).0
        ≡ map (λ x. parts.columns (merged x)) items
    kept : map parts.in_memory (reload_each key (some q) items).0 ≡ map parts.in_memory items

  reload_each-cons :
      (item filled : T) (k : K) (items : List T)
      → key item ≡ some k
      → q.find_by_id k item ≡ ok filled
      → reload_each key (some q) (item ∷ items)
        ≡ (let (done, e) = reload_each key (some q) items in (filled ∷ done, e))
  unfolding reload_each reload
  reload_each-cons item filled k items h f = rw (h, f) refl

  reload_each-EachReloaded :
      (items : List T) → All (Present same key table) items → EachReloaded items
  reload_each-EachReloaded [] h =
      unfold reload_each in record { no_error = refl; same_columns = refl; kept = refl }
  reload_each-EachReloaded (item ∷ items) (here, h) =
      let (filled, found, columns, memory) = reads.one here.id here.row item here.is_row in
      let each = reload_each-EachReloaded items h in
      let step = reload_each-cons item filled here.id items here.has_id found in
      record {
        no_error = rw step each.no_error;
        same_columns = rw step (
            ap₂ (λ x xs. x ∷ xs)
              (columns ∙ sym (ap parts.columns (merge_one-row same is_key key table item here)))
              each.same_columns);
        kept = rw step (ap₂ (λ x xs. x ∷ xs) memory each.kept);
      }

  reload_batch-rows :
      (items : List T) (find : List K → Result E (List T))
      → q.find_by_ids ≡ some find
      → reload_batch same key (some find) (some q) items ≡ (map merged items, none)
  unfolding reload_batch merge_found
  reload_batch-rows items find e =
      let ks = extract_primary_keys key items in
      ap (merge_found same key items) (reads.many find e ks)
      ∙ ap (λ rows. (rows, none))
          (merge_reloaded_back-map same is_key key items _
            ∙ merge_keep same is_key key ks table items
                (extract_primary_keys-KeyIn same is_key key items))

  reload_all-rows :
      (items : List T) (find : List K → Result E (List T))
      → q.find_by_ids ≡ some find
      → reload_all same key (some q) items ≡ (map merged items, none)
  unfolding reload_all
  reload_all-rows [] find e = refl
  reload_all-rows (item ∷ items) find e =
      ap (λ b. reload_batch same key b (some q) (item ∷ items)) e
      ∙ reload_batch-rows (item ∷ items) find e

  merged-empty :
      (items : List T)
      → All (Present same key table) items
      → map parts.in_memory (map merged items) ≡ map (λ x. empty) items
  merged-empty [] h = refl
  merged-empty (item ∷ items) (here, h) =
      ap₂ (λ x xs. x ∷ xs)
        (ap parts.in_memory (merge_one-row same is_key key table item here)
          ∙ reads.fresh here.id here.row here.is_row)
        (merged-empty items h)

  -- If the queriers read one table and every record has a key that is in it, then ReloadAll with a
  -- batch query and the reload of one record after the other both give no error, and the same
  -- columns. They differ in what a record holds besides its columns: the reload of each leaves
  -- it, and ReloadAll leaves each record with nothing loaded.
  pub reload_all-reload_each :
      (items : List T) (find : List K → Result E (List T))
      → q.find_by_ids ≡ some find
      → All (Present same key table) items
      → let all = reload_all same key (some q) items in
        let each = reload_each key (some q) items in
        (all.1 ≡ none)
        × (each.1 ≡ none)
        × (map parts.columns all.0 ≡ map parts.columns each.0)
        × (map parts.in_memory each.0 ≡ map parts.in_memory items)
        × (map parts.in_memory all.0 ≡ map (λ x. empty) items)
  reload_all-reload_each items find e present =
      let each = reload_each-EachReloaded items present in
      let all = reload_all-rows items find e in
      (
        ap (λ x. x.1) all,
        each.no_error,
        ap (λ x. map parts.columns x.0) all
            ∙ (map-map merged parts.columns items ∙ sym each.same_columns),
        each.kept,
        ap (λ x. map parts.in_memory x.0) all ∙ merged-empty items present,
      )
