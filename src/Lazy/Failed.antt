-- ===== src/Lazy/Failed.antt =====
-- app/models/helper_lazy.go: a batch load whose query fails.
use goth_scaffold.Prelude.{
  ◌≡◌, refl, ap, ◌∙◌, Bool, List, [], map, Option, none, some, fun_ext, Bool-cases, inl, inr,
}
use goth_scaffold.Lazy.{
  Ref, nil_pointer, value, Parent, Querier, set_cache, lazy_has_many, wanted_key, load_batch,
  eager_has_many,
}
use goth_scaffold.Lazy.Batch.{IsKey, map-map}
use goth_scaffold.Lazy.Transparent.{fill_rows, load_batch-rows}

-- What is seen of a record: nothing where it was to be loaded, else what it had
abbrev pub or_nothing : {K C : Type 0} → Option K → List C → List C
or_nothing none children = children
or_nothing (some k) children = []

module _ {K C E : Type 0} (same : K → K → Bool) (is_zero : K → Bool) (key : IsKey same)
    (key_of : C → Option K) (q : Querier K C E) (find : List K → List C × Option E) where
  seen-empty :
      (r : Ref K) (c : Option (List C))
      → let p : Parent K C = record { ref = r; cache = c } in
        (lazy_has_many (some q) (
          fill_rows same key key_of
            (wanted_key same is_zero)
            set_cache
            []
            (wanted_key same is_zero p)
            p)).0
        ≡ or_nothing (wanted_key same is_zero p) (lazy_has_many (some q) p).0
  unfolding lazy_has_many wanted_key
  seen-empty r (some children) = refl
  seen-empty nil_pointer none = refl
  seen-empty (value k) none = elim (Bool-cases (is_zero k)) [
    | inl zero ↦ rw zero refl
    | inr nonzero ↦ rw nonzero refl
  ]

  -- Where the batch query of a has-many association fails and has read nothing, every record that
  -- was to be loaded is seen without children from then on, and all other records are seen as
  -- before.
  pub eager_has_many-failed :
      (items : List (Parent K C))
      → q.find_has_many_in ≡ some find
      → ((keys : List K) → (find keys).0 ≡ [])
      → map (λ p. (lazy_has_many (some q) p).0) (eager_has_many same is_zero (some q) key_of items)
        ≡ map (λ p. or_nothing (wanted_key same is_zero p) (lazy_has_many (some q) p).0) items
  unfolding eager_has_many
  eager_has_many-failed items e failed =
      ap
        (λ b.
          map (λ p. (lazy_has_many (some q) p).0)
            (load_batch same (wanted_key same is_zero) set_cache key_of b items))
        e
      ∙ ap (map (λ p. (lazy_has_many (some q) p).0))
          (load_batch-rows same key key_of (wanted_key same is_zero) set_cache [] find items failed)
      ∙ map-map
          (λ p.
            fill_rows same key key_of (wanted_key same is_zero) set_cache []
              (wanted_key same is_zero p) p)
          (λ p. (lazy_has_many (some q) p).0) items
      ∙ ap (λ f. map f items) (fun_ext (λ p. seen-empty p.ref p.cache))
