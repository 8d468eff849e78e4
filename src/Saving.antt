-- ===== src/Saving.antt =====
-- app/repositories/database_repository.go: saving and deleting an entity between its hooks, the retries of
-- a save, and the two operations that create what they do not find.
pub mod Retries
pub mod Upserts
use goth_scaffold.Prelude.{
  ℕ, zero, suc, Text, Bool, true, false, not, ◌||◌, if◌then◌else◌, List, [], ◌∷◌, Option, none,
  some,
}

-- The entity with its hooks (one that it lacks returns no error), the database and the clock; each
-- changes the state `S`, which holds the entity. `first` is of the conditions, into a fresh record or the entity;
-- `copy_key` is `copy_primary_key` of Models/Keys, from the row that was read to the entity.
pub record Store (S E T : Type 0) : Type 0 where
  pub pre_save : S → Option E × S
  pub post_save : S → Option E × S
  pub pre_delete : S → Option E × S
  pub post_delete : S → Option E × S
  pub save_row : S → Option E × S
  pub delete_row : S → Option E × S
  pub create_row : S → Option E × S
  pub save_without_created : S → Option E × S
  pub first_existing : S → Option E × T × S
  pub first_entity : S → Option E × S
  pub copy_key : T → S → S
  pub sleep : ℕ → S → S
  pub is_not_found : E → Bool
  pub is_duplicate_key : E → Bool
  pub is_retryable : E → Bool

-- `if err := ...; err != nil { return err }` in front of the rest
abbrev pub unless_error : {S E : Type 0} → Option E × S → (S → Option E × S) → Option E × S
unless_error (some e, s) next = (some e, s)
unless_error (none, s) next = next s

-- In milliseconds
abbrev pub save_backoffs : List ℕ
save_backoffs = 10 ∷ 20 ∷ 50 ∷ 100 ∷ 500 ∷ []

module _ {S E T : Type 0} (d : Store S E T) where
  -- `Save`, and `SaveTx` on the state of a transaction
  unfoldable pub save_entity : S → Option E × S
  save_entity s = unless_error (d.pre_save s) (λ s. unless_error (d.save_row s) d.post_save)

  -- `Delete`, and `DeleteTx` on the state of a transaction
  unfoldable pub delete_entity : S → Option E × S
  delete_entity s = unless_error (d.pre_delete s) (λ s. unless_error (d.delete_row s) d.post_delete)

  abbrev after_save : Option E × S → (E → S → Option E × S) → Option E × S
  after_save (none, s) again = d.post_save s
  after_save (some e, s) again = again e s

  -- The loop of `_SaveWithRetry`, with the backoffs that are left
  unfoldable pub save_attempts : List ℕ → S → Option E × S
  save_attempts [] s =
      unless_error (d.pre_save s) (λ s. after_save (d.save_row s) (λ e s. (some e, s)))
  save_attempts (t ∷ backoffs) s = unless_error (d.pre_save s) (λ s.
      after_save (d.save_row s) (λ e s.
        (let rest = save_attempts backoffs (d.sleep t s) in
          if d.is_retryable e then rest else (some e, s))))

  -- `_SaveWithRetry`
  unfoldable pub save_with_retry : S → Option E × S
  unfolding save_attempts
  save_with_retry s = save_attempts save_backoffs s

  abbrev with_existing :
      Option E × T × S → (E → S → Option E × S) → (T → S → Option E × S) → Option E × S
  with_existing (none, t, s) failed next = next t s
  with_existing (some e, t, s) failed next = failed e s

  -- Both branches that save over a row which exists already
  abbrev save_over : T → S → Option E × S
  save_over t s = unless_error (d.save_without_created (d.copy_key t s)) d.post_save

  abbrev after_create : Option E × S → Option E × S
  after_create (none, s) = d.post_save s
  after_create (some e, s) =
      let requeried = with_existing (d.first_existing s) (λ e s. (some e, s)) save_over in
      if d.is_duplicate_key e then requeried else (some e, s)

  -- `UpsertTx`
  unfoldable pub upsert : S → Option E × S
  upsert s = unless_error (d.pre_save s) (λ s.
      with_existing (d.first_existing s)
        (λ e s.
          let created = after_create (d.create_row s) in
          if d.is_not_found e then created else (some e, s))
        save_over)

  abbrev after_requery : E → Option E × S → Bool × Option E × S
  after_requery e (none, s) = (false, none, s)
  after_requery e (some e', s) = (false, some e, s)

  abbrev after_first_create : Option E × S → Bool × Option E × S
  after_first_create (none, s) = (let (e, s') = d.post_save s in (true, e, s'))
  after_first_create (some e, s) =
      let requeried = after_requery e (d.first_entity s) in
      if d.is_duplicate_key e then requeried else (false, some e, s)

  abbrev create_behind : Option E × S → Bool × Option E × S
  create_behind (some e, s) = (false, some e, s)
  create_behind (none, s) = after_first_create (d.create_row s)

  abbrev after_first : Option E × S → Bool × Option E × S
  after_first (none, s) = (false, none, s)
  after_first (some e, s) =
      let created = create_behind (d.pre_save s) in
      if d.is_not_found e then created else (false, some e, s)

  -- `FirstOrCreateTx`
  unfoldable pub first_or_create : S → Bool × Option E × S
  first_or_create s = after_first (d.first_entity s)
