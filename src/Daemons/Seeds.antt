-- ===== src/Daemons/Seeds.antt =====
-- app/database/seed/registry.go: the seeds, run in their order up to the first error; and the daemon of
-- app/daemons/92_action_database_seed.go.
use goth_scaffold.Prelude.{
  Text, is_empty, ltb, ◌==◌, Bool, true, false, ◌&&◌, if◌then◌else◌, List, [], ◌∷◌, ◌++◌, Option,
  none, some, ℤ, pos, negsuc, ◌≡◌, refl, ap, sym, ◌∙◌, fun_ext,
}

-- `Seed`; `run_seed` changes the state `S`.
pub record Seed (S E : Type 0) : Type 0 where
  pub seed_name : Text
  pub seed_order : ℤ
  pub run_seed : S → Option E × S

-- `<` on the order
abbrev pub order_less : ℤ → ℤ → Bool
order_less (pos m) (pos n) = ltb m n
order_less (pos m) (negsuc n) = false
order_less (negsuc m) (pos n) = true
order_less (negsuc m) (negsuc n) = ltb n m

abbrev pub order_same : ℤ → ℤ → Bool
order_same (pos m) (pos n) = m == n
order_same (negsuc m) (negsuc n) = m == n
order_same m n = false

module _ {S E : Type 0} where
  -- `Register`
  abbrev pub register_seed : Seed S E → List (Seed S E) → List (Seed S E)
  register_seed s seeds = seeds ++ (s ∷ [])

  -- The comparison of `RunAll`, with `<` on texts
  unfoldable pub seed_less : (Text → Text → Bool) → Seed S E → Seed S E → Bool
  seed_less name_less a b =
      if order_same a.seed_order b.seed_order
      then name_less a.seed_name b.seed_name
      else order_less a.seed_order b.seed_order

  abbrev pub or_next_seed : Option E × S → (S → Option E × S) → Option E × S
  or_next_seed (some e, s) next = (some e, s)
  or_next_seed (none, s) next = next s

  -- The loop of `RunAll`
  unfoldable pub run_seeds : List (Seed S E) → S → Option E × S
  run_seeds [] s = (none, s)
  run_seeds (seed ∷ seeds) s = or_next_seed (seed.run_seed s) (run_seeds seeds)

  -- `RunAll`; `sort_slice` is `sort.Slice`.
  unfoldable pub run_all :
      (Text → Text → Bool)
      → ((Seed S E → Seed S E → Bool) → List (Seed S E) → List (Seed S E))
      → List (Seed S E)
      → S
      → Option E × S
  unfolding seed_less run_seeds
  run_all name_less sort_slice registered s =
      run_seeds (sort_slice (seed_less name_less) registered) s

  -- `ActionDatabaseSeed.Start`, with the names of the two stores; the error is only logged.
  abbrev pub seed_database : Text → Text → (S → Option E × S) → S → S
  seed_database database_name cassandra_name seeds s =
      if is_empty database_name && is_empty cassandra_name then s else (seeds s).1

  or_next_seed_assoc :
      (r : Option E × S) (f g : S → Option E × S)
      → or_next_seed (or_next_seed r f) g ≡ or_next_seed r (λ s. or_next_seed (f s) g)
  or_next_seed_assoc (some e, s) f g = refl
  or_next_seed_assoc (none, s) f g = refl

  -- Seeds that stand behind others run on what those have left, and not at all where one of those has failed.
  pub run_seeds-append :
      (before after : List (Seed S E)) (s : S)
      → run_seeds (before ++ after) s ≡ or_next_seed (run_seeds before s) (run_seeds after)
  unfolding run_seeds
  run_seeds-append [] after s = refl
  run_seeds-append (seed ∷ before) after s =
      ap (or_next_seed (seed.run_seed s)) (fun_ext (run_seeds-append before after))
      ∙ sym (or_next_seed_assoc (seed.run_seed s) (run_seeds before) (run_seeds after))
