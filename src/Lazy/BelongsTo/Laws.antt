-- ===== src/Lazy/BelongsTo/Laws.antt =====
-- app/models/helper_lazy.go: a belongs-to association that is loaded ahead, read afterwards.
use goth_scaffold.Prelude.{
  ℕ, ◌==◌, ==_iff, ◌≡◌, refl, ap, ◌∙◌, ◌⊎◌, true, List, [], ◌∷◌, map, keep, Option, none, some,
  Result, ok, err, arith, Option-cases, inl, inr,
}
use goth_scaffold.Lazy.{Ref, nil_pointer, value, has_key, wanted_keys}
use goth_scaffold.Lazy.Batch.{IsKey, map-map, map_covered, wanted_keys-Covers}
use goth_scaffold.Lazy.BelongsTo.{
  Owner, Finder, found, resolve_by_id, resolve_belongs_to, lazy_belongs_to, wanted_id, child_by_id,
  assign_child, load_ids, load_owners, eager_belongs_to,
}

numbers-IsKey : IsKey ◌==◌
numbers-IsKey = record { same_iff = ==_iff }

-- The querier reads one table. An id is the primary key of at most one row, so that it does not
-- matter which row with the id is read. The batch query may fail.
pub record Reads {C E : Type 0} (id_of : C → ℕ) (q : Finder C E) (table : List C) : Type 0 where
  pub single : (id : ℕ) → found (q.find_by_id id) ≡ child_by_id id_of id table
  pub batch :
      (find : List ℕ → Result E (List C)) (ids : List ℕ)
      → q.find_by_ids ≡ some find
      → ((e : E) × (find ids ≡ err e))
        ⊎ (find ids ≡ ok (keep (λ c. has_key ◌==◌ (id_of c) ids) table))

module _ {C E : Type 0} (id_of : C → ℕ) (q : Finder C E) (table : List C)
    (reads : Reads id_of q table) where
  child_by_id-keep :
      (id : ℕ) (ids : List ℕ) (rows : List C)
      → has_key ◌==◌ id ids ≡ true
      → child_by_id id_of id (keep (λ c. has_key ◌==◌ (id_of c) ids) rows)
        ≡ child_by_id id_of id rows
  unfolding child_by_id
  child_by_id-keep id ids [] h = refl
  child_by_id-keep id ids (c ∷ rows) h =
      ground (arith, child_by_id-keep id ids rows h, ==_iff id (id_of c))

  seen : Owner C → Owner C
  seen p = lazy_belongs_to true (some q) p

  seen-assigned :
      (r : Ref ℕ) (c : Option C) (rows : List C)
      → let p : Owner C = record { foreign_key = r; cache = c } in
        ((id : ℕ) → wanted_id p ≡ some id → child_by_id id_of id rows ≡ child_by_id id_of id table)
        → seen (assign_child id_of rows (wanted_id p) p) ≡ seen p
  unfolding seen lazy_belongs_to wanted_id resolve_belongs_to resolve_by_id
  seen-assigned r (some c) rows h = refl
  seen-assigned nil_pointer none rows h = refl
  seen-assigned (value id) none rows h = ground (arith, h id, reads.single id)

  seen-rows :
      (rows : List C) (items : List (Owner C))
      → rows ≡ keep (λ c. has_key ◌==◌ (id_of c) (wanted_keys ◌==◌ wanted_id items [])) table
      → map seen (map (λ p. assign_child id_of rows (wanted_id p) p) items) ≡ map seen items
  seen-rows rows items e =
      map-map (λ p. assign_child id_of rows (wanted_id p) p) seen items
      ∙ map_covered ◌==◌ numbers-IsKey wanted_id _ seen items (wanted_keys ◌==◌ wanted_id items [])
          (wanted_keys-Covers ◌==◌ numbers-IsKey wanted_id items)
          (λ p belongs. seen-assigned p.foreign_key p.cache rows (λ id h.
            ap (child_by_id id_of id) e
            ∙ child_by_id-keep id (wanted_keys ◌==◌ wanted_id items []) table (belongs id h)))

  seen-ids :
      (find : List ℕ → Result E (List C)) (items : List (Owner C)) (ids : List ℕ)
      → q.find_by_ids ≡ some find
      → wanted_keys ◌==◌ wanted_id items [] ≡ ids
      → map seen (load_ids id_of ids find items) ≡ map seen items
  seen-ids find items [] e h = refl
  seen-ids find items (id ∷ ids) e h = elim (reads.batch find (id ∷ ids) e) [
    | inl (error, r) ↦ rw r refl
    | inr r ↦ rw r (seen-rows _ items (rw h refl))
  ]

  -- If the querier reads one table and the foreign key has a method Resolve, loading a belongs-to association ahead changes nothing that
  -- is seen later, also where the batch query fails: the access to each record finds the same
  -- child and leaves the same record.
  pub eager_belongs_to-transparent :
      (items : List (Owner C))
      → map (lazy_belongs_to true (some q)) (eager_belongs_to (some q) id_of items)
        ≡ map (lazy_belongs_to true (some q)) items
  unfolding eager_belongs_to seen
  eager_belongs_to-transparent items = elim (Option-cases q.find_by_ids) [
    | inl e ↦ ap (λ b. map (lazy_belongs_to true (some q)) (load_owners id_of b items)) e
    | inr (find, e) ↦
        ap (λ b. map (lazy_belongs_to true (some q)) (load_owners id_of b items)) e
        ∙ seen-ids find items (wanted_keys ◌==◌ wanted_id items []) e refl
  ]
