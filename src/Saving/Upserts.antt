-- ===== src/Saving/Upserts.antt =====
-- app/repositories/database_repository.go: the row behind an upsert and behind a first-or-create.
use goth_scaffold.Prelude.{◌≡◌, refl, sym, ap, subst, ◌∙◌, Bool, Option, none, some, if_rule}
use goth_scaffold.Saving.{
  Store, unless_error, with_existing, save_over, after_create, upsert, after_requery,
  after_first_create, create_behind, after_first, first_or_create,
}

-- What is read of a state: the row with a primary key, the entity, a primary key, and whether two rows are
-- the same up to the time of creation
pub record View (S T K : Type 0) : Type 1 where
  pub stored : S → K → Option T
  pub entity : S → T
  pub key : T → K
  pub Same : T → T → Type 0

-- The row with the primary key of the entity is the entity.
pub record IsStored {S T K : Type 0} (v : View S T K) (s : S) : Type 0 where
  pub row : T
  pub is_row : v.stored s (v.key (v.entity s)) ≡ some row
  pub is_same : v.Same (v.entity s) row

-- What GORM documents of `First` into a fresh record and into the entity, of `Create`, and of `Save` on an
-- entity with the primary key of a row; what the copy of the key does; and that a hook behind a save leaves the
-- entity and its row alone
pub record Keeps {S E T K : Type 0} (d : Store S E T) (v : View S T K) : Type 0 where
  pub first_existing :
      (s : S)
      → (d.first_existing s).0 ≡ none
      → v.stored (d.first_existing s).2 (v.key (d.first_existing s).1) ≡ some (d.first_existing s).1
  pub first_entity : (s : S) → (d.first_entity s).0 ≡ none → IsStored v (d.first_entity s).1
  pub copied :
      (t : T) (s : S)
      → (v.key (v.entity (d.copy_key t s)) ≡ v.key t) × (v.stored (d.copy_key t s) ≡ v.stored s)
  pub created : (s : S) → (d.create_row s).0 ≡ none → IsStored v (d.create_row s).1
  pub overwritten :
      (s : S) (t : T)
      → v.stored s (v.key (v.entity s)) ≡ some t
      → (d.save_without_created s).0 ≡ none
      → IsStored v (d.save_without_created s).1
        × (v.key (v.entity (d.save_without_created s).1) ≡ v.key (v.entity s))
  pub posted :
      (s : S)
      → IsStored v s
      → IsStored v (d.post_save s).1 × (v.key (v.entity (d.post_save s).1) ≡ v.key (v.entity s))

module _ {S E T K : Type 0} (d : Store S E T) (v : View S T K) (keeps : Keeps d v) where
  -- No error, only with the entity in its row
  abbrev Fine : Option E × S → Type 0
  Fine x = x.0 ≡ none → IsStored v x.1

  unless_error-Fine :
      (x : Option E × S) (next : S → Option E × S)
      → (x.0 ≡ none → Fine (next x.1))
      → Fine (unless_error x next)
  unless_error-Fine (none, s) next h e = h refl e
  unless_error-Fine (some e, s) next h k = absurd (cc k)

  -- No error, only with the entity in its row, which is that of `t`
  abbrev FineAt : T → Option E × S → Type 0
  FineAt t x = x.0 ≡ none → IsStored v x.1 × (v.key (v.entity x.1) ≡ v.key t)

  after_overwrite-FineAt :
      (t : T) (x : Option E × S) → FineAt t x → FineAt t (unless_error x d.post_save)
  after_overwrite-FineAt t (some e, s) h k = absurd (cc k)
  after_overwrite-FineAt t (none, s) h k =
      let (is_stored, same_key) = h refl in
      let (posted, kept) = keeps.posted s is_stored in (posted, kept ∙ same_key)

  save_over-FineAt : (t : T) (s : S) → v.stored s (v.key t) ≡ some t → FineAt t (save_over d t s)
  save_over-FineAt t s h =
      let (same_key, same_rows) = keeps.copied t s in
      after_overwrite-FineAt t (d.save_without_created (d.copy_key t s)) (λ k.
        let (is_stored, kept) =
          keeps.overwritten (d.copy_key t s) t
            (ap (λ rows. rows (v.key (v.entity (d.copy_key t s)))) same_rows
              ∙ (ap (v.stored s) same_key ∙ h))
            k in
        (is_stored, kept ∙ same_key))

  with_existing-Fine :
      (x : Option E × T × S) (failed : E → S → Option E × S)
      → (x.0 ≡ none → v.stored x.2 (v.key x.1) ≡ some x.1)
      → ((e : E) (s : S) → Fine (failed e s))
      → Fine (with_existing d x failed (save_over d))
  with_existing-Fine (none, t, s) failed h f = λ k. (save_over-FineAt t s (h refl) k).0
  with_existing-Fine (some e, t, s) failed h f = f e s

  after_create-Fine : (x : Option E × S) → (x.0 ≡ none → IsStored v x.1) → Fine (after_create d x)
  after_create-Fine (none, s) h k = (keeps.posted s (h refl)).0
  after_create-Fine (some e, s) h k =
      if_rule Fine (d.is_duplicate_key e)
        (λ _.
          with_existing-Fine (d.first_existing s) _ (keeps.first_existing s)
            (λ e s k. absurd (cc k)))
        (λ _ k. absurd (cc k)) k

  upsert-Fine : (s : S) → Fine (upsert d s)
  unfolding upsert
  upsert-Fine s = unless_error-Fine (d.pre_save s) _ (λ p.
      with_existing-Fine (d.first_existing _) _ (keeps.first_existing _) (λ e s.
        if_rule Fine (d.is_not_found e) (λ _. after_create-Fine (d.create_row s) (keeps.created s))
          (λ _ k. absurd (cc k))))

  abbrev FineResult : Bool × Option E × S → Type 0
  FineResult x = x.1 ≡ none → IsStored v x.2

  after_requery-Fine :
      (e : E) (x : Option E × S) → (x.0 ≡ none → IsStored v x.1) → FineResult (after_requery d e x)
  after_requery-Fine e (none, s) h k = h refl
  after_requery-Fine e (some e', s) h k = absurd (cc k)

  after_first_create-Fine :
      (x : Option E × S) → (x.0 ≡ none → IsStored v x.1) → FineResult (after_first_create d x)
  after_first_create-Fine (none, s) h k = (keeps.posted s (h refl)).0
  after_first_create-Fine (some e, s) h k =
      if_rule FineResult (d.is_duplicate_key e)
        (λ _. after_requery-Fine e (d.first_entity s) (keeps.first_entity s)) (λ _ k. absurd (cc k))
        k

  create_behind-Fine : (x : Option E × S) → FineResult (create_behind d x)
  create_behind-Fine (some e, s) k = absurd (cc k)
  create_behind-Fine (none, s) k = after_first_create-Fine (d.create_row s) (keeps.created s) k

  after_first-Fine :
      (x : Option E × S) → (x.0 ≡ none → IsStored v x.1) → FineResult (after_first d x)
  after_first-Fine (none, s) h k = h refl
  after_first-Fine (some e, s) h k =
      if_rule FineResult (d.is_not_found e) (λ _. create_behind-Fine (d.pre_save s))
        (λ _ k. absurd (cc k)) k

  upsert-found :
      (s s1 s2 : S) (t : T)
      → d.pre_save s ≡ (none, s1)
      → d.first_existing s1 ≡ (none, t, s2)
      → upsert d s ≡ save_over d t s2
  unfolding upsert
  upsert-found s s1 s2 t p f = rw (p, f) refl

  first_existing-stored :
      (s s' : S) (t : T) → d.first_existing s ≡ (none, t, s') → v.stored s' (v.key t) ≡ some t
  first_existing-stored s s' t f =
      subst (λ x. x.0 ≡ none → v.stored x.2 (v.key x.1) ≡ some x.1) f (keeps.first_existing s) refl

  -- If First, Create and Save do what GORM documents, the copy of the primary key copies it, and a
  -- hook behind a save leaves the entity and its row alone, then where an upsert or a
  -- first-or-create returns no error, also behind a key that another session has inserted in
  -- between, the row with the primary key of the entity is the entity, up to the time of
  -- creation. Where the first query of the upsert has found a row, that is the row written over:
  -- the entity has its primary key.
  pub upsert-IsStored :
      (s : S)
      → ((upsert d s).0 ≡ none → IsStored v (upsert d s).1)
        × ((s1 s2 : S) (t : T)
            → d.pre_save s ≡ (none, s1)
            → d.first_existing s1 ≡ (none, t, s2)
            → (upsert d s).0 ≡ none
            → v.key (v.entity (upsert d s).1) ≡ v.key t)
        × ((first_or_create d s).1 ≡ none → IsStored v (first_or_create d s).2)
  unfolding first_or_create
  upsert-IsStored s = (
    upsert-Fine s,
    λ s1 s2 t p f.
        subst (λ x. x.0 ≡ none → v.key (v.entity x.1) ≡ v.key t) (sym (upsert-found s s1 s2 t p f))
          (λ k. (save_over-FineAt t s2 (first_existing-stored s1 s2 t f) k).1),
    after_first-Fine (d.first_entity s) (keeps.first_entity s),
  )
