-- ===== src/Lazy/Transparent.antt =====
-- app/models/helper_lazy.go: an association that is loaded ahead, read afterwards.
use goth_scaffold.Prelude.{
  ◌≡◌, refl, sym, ap, ◌∙◌, Bool, true, ◌&&◌, List, [], ◌∷◌, map, keep, keep-keep, fun_ext, Option,
  none, some, ok, arith, Option-cases, Bool-cases, inl, inr,
}
use goth_scaffold.Lazy.{
  Ref, nil_pointer, value, Parent, Querier, set_cache, lazy_has_many, has_key, group_by_key,
  group_of, wanted_keys, fill_one, load_keys, load_batch, wanted_key, eager_has_many,
}
use goth_scaffold.Lazy.Batch.{
  IsKey, belongs_to, in_keys, map-map, map-id, Covers, map_covered, wanted_keys-Covers,
  group_of-group_by_key,
}

-- The rows whose key is `k`
abbrev pub rows_of : {K C : Type 0} → (K → K → Bool) → (C → Option K) → List C → K → List C
rows_of same key_of table k = keep (λ c. belongs_to same k (key_of c)) table

module _ {K C E : Type 0} (same : K → K → Bool) (key_of : C → Option K) where
  -- The querier reads one table, in one order.
  pub record Answers (q : Querier K C E) (table : List C) : Type 0 where
    pub single : (k : K) → q.find_has_many k ≡ ok (rows_of same key_of table k)
    pub batch :
        (find : List K → List C × Option E)
        → q.find_has_many_in ≡ some find
        → (keys : List K) → find keys ≡ (keep (λ c. in_keys same keys (key_of c)) table, none)

module _ {K C : Type 0} (same : K → K → Bool) (key : IsKey same) (key_of : C → Option K) where
  narrow :
      (k : K) (keys : List K) (o : Option K)
      → has_key same k keys ≡ true
      → (in_keys same keys o && belongs_to same k o) ≡ belongs_to same k o
  narrow k keys none h = refl
  narrow k keys (some j) h = ground (arith, key.same_iff k j)

  -- Of the rows of all keys, those of one key are all of its rows.
  group_of-rows :
      (k : K) (keys : List K) (table : List C)
      → has_key same k keys ≡ true
      → group_of same k
          (group_by_key same key_of (keep (λ c. in_keys same keys (key_of c)) table) [])
        ≡ rows_of same key_of table k
  unfolding group_of
  group_of-rows k keys table h =
      group_of-group_by_key same key key_of k (keep (λ c. in_keys same keys (key_of c)) table) []
      ∙ keep-keep (λ c. belongs_to same k (key_of c)) (λ c. in_keys same keys (key_of c)) table
      ∙ ap (λ f. keep f table) (fun_ext (λ c. narrow k keys (key_of c) h))

  module _ {P : Type 0} (wanted : P → Option K) (fill : List C → P → P) (table : List C) where
    abbrev pub fill_rows : Option K → P → P
    fill_rows none p = p
    fill_rows (some k) p = fill (rows_of same key_of table k) p

    fill_one-rows :
        (keys : List K) (p : P)
        → ((k : K) → wanted p ≡ some k → has_key same k keys ≡ true)
        → fill_one same wanted fill
            (group_by_key same key_of (keep (λ c. in_keys same keys (key_of c)) table) [])
            p
          ≡ fill_rows (wanted p) p
    unfolding fill_one
    fill_one-rows keys p belongs = elim (Option-cases (wanted p)) [
      | inl e ↦ rw e refl
      | inr (k, e) ↦ rw e (ap (λ rows. fill rows p) (group_of-rows k keys table (belongs k e)))
    ]

    load_keys-rows :
        {E : Type 0} (find : List K → List C × Option E) (items : List P) (keys : List K)
        → ((ks : List K) → (find ks).0 ≡ keep (λ c. in_keys same ks (key_of c)) table)
        → Covers same key wanted items keys
        → load_keys same wanted fill key_of keys find items
          ≡ map (λ p. fill_rows (wanted p) p) items
    unfolding load_keys
    load_keys-rows find items [] answers covers =
        sym (map-id items)
        ∙ map_covered same key wanted (λ p. p) (λ p. fill_rows (wanted p) p) items [] covers
            (λ p belongs. elim (Option-cases (wanted p)) [
              | inl e ↦ rw e refl
              | inr (k, e) ↦ absurd (cc (belongs k e))
            ])
    load_keys-rows find items (k ∷ keys) answers covers = rw (answers (k ∷ keys)) (
        map_covered same key wanted _ (λ p. fill_rows (wanted p) p) items (k ∷ keys) covers
          (fill_one-rows (k ∷ keys)))

    -- Where the batch query reads the rows of a table, with an error or without, each record gets the rows of its own key.
    pub load_batch-rows :
        {E : Type 0} (find : List K → List C × Option E) (items : List P)
        → ((ks : List K) → (find ks).0 ≡ keep (λ c. in_keys same ks (key_of c)) table)
        → load_batch same wanted fill key_of (some find) items
          ≡ map (λ p. fill_rows (wanted p) p) items
    unfolding load_batch
    load_batch-rows find items answers =
        load_keys-rows find items (wanted_keys same wanted items []) answers
          (wanted_keys-Covers same key wanted items)

module _ {K C E : Type 0} (same : K → K → Bool) (is_zero : K → Bool) (key : IsKey same)
    (key_of : C → Option K) (q : Querier K C E) (table : List C)
    (answers : Answers same key_of q table) where
  with_rows : Parent K C → Parent K C
  with_rows p =
      fill_rows same key key_of (wanted_key same is_zero) set_cache table
        (wanted_key same is_zero p) p

  lazy-fill_rows_of :
      (r : Ref K) (c : Option (List C))
      → let p : Parent K C = record { ref = r; cache = c } in
        lazy_has_many (some q) (with_rows p) ≡ lazy_has_many (some q) p
  unfolding lazy_has_many wanted_key with_rows
  lazy-fill_rows_of r (some children) = refl
  lazy-fill_rows_of nil_pointer none = refl
  lazy-fill_rows_of (value k) none = elim (Bool-cases (is_zero k)) [
    | inl zero ↦ rw zero refl
    | inr nonzero ↦ rw (nonzero, answers.single k) refl
  ]

  lazy-fill_rows :
      (p : Parent K C) → lazy_has_many (some q) (with_rows p) ≡ lazy_has_many (some q) p
  lazy-fill_rows p = lazy-fill_rows_of p.ref p.cache

  eager-with_rows :
      (find : List K → List C × Option E) (items : List (Parent K C))
      → q.find_has_many_in ≡ some find
      → eager_has_many same is_zero (some q) key_of items ≡ map with_rows items
  unfolding eager_has_many with_rows
  eager-with_rows find items e = rw e (
      load_batch-rows same key key_of (wanted_key same is_zero) set_cache table find items
        (λ ks. ap (λ r. r.0) (answers.batch find e ks)))

  -- If the querier reads one table in one order, loading a has-many association ahead changes
  -- nothing that is seen later: the access to each record returns the same children and leaves
  -- the same record, whether the batch load has run before or not, on records of which some are
  -- loaded already, some have no key, some a zero key and some share a key.
  pub eager_has_many-transparent :
      (items : List (Parent K C))
      → map (lazy_has_many (some q)) (eager_has_many same is_zero (some q) key_of items)
        ≡ map (lazy_has_many (some q)) items
  unfolding eager_has_many load_batch
  eager_has_many-transparent items = elim (Option-cases q.find_has_many_in) [
    | inl e ↦
        ap
          (λ b.
            map (lazy_has_many (some q))
              (load_batch same (wanted_key same is_zero) set_cache key_of b items))
          e
        ∙ refl
    | inr (find, e) ↦
        ap (map (lazy_has_many (some q))) (eager-with_rows find items e)
        ∙ map-map with_rows (lazy_has_many (some q)) items
        ∙ ap (λ f. map f items) (fun_ext lazy-fill_rows)
  ]
