-- ===== src/Lazy/Loading.antt =====
-- app/models/helper_repository.go: the options that load associations ahead, and the loop of
-- app/models/helper_lazy.go that they run.
use goth_scaffold.Prelude.{
  Text, Bool, true, if◌then◌else◌, map, List, [], ◌∷◌, All, Option, none, some, ◌≡◌, refl, ap₂,
}
use goth_scaffold.Lazy.Dispatch.{LazyField, EagerLoad, trim_underscore, is_allowed, eager_load}

-- `_LoadFn`: nil, or the names that it lets through, all where there are none
abbrev pub LoadFn : Type 0
LoadFn = Option (Option (List Text))

-- `EagerAll`
abbrev pub eager_all : LoadFn
eager_all = some none

-- `Eager`
abbrev pub eager : List Text → LoadFn
eager [] = none
eager (n ∷ ns) = some (some (map trim_underscore (n ∷ ns)))

module _ {A : Type 0} (model_fields : List Text) where
  -- The loop of `_AutoEagerLoadFiltered`: what is done for each field, where there are items
  unfoldable pub load_fields : Option (List Text) → List (LazyField A) → List (EagerLoad A)
  unfolding eager_load
  load_fields allowed [] = []
  load_fields allowed (f ∷ fs) = eager_load model_fields allowed f ∷ load_fields allowed fs

  -- `ApplyEager`
  unfoldable pub apply_eager : LoadFn → Bool → List (LazyField A) → List (EagerLoad A)
  unfolding load_fields
  apply_eager none no_items fs = []
  apply_eager (some allowed) no_items fs = if no_items then [] else load_fields allowed fs

  eager_load-allowed :
      (names : List Text) (f : LazyField A)
      → is_allowed (some names) f.name ≡ true
      → eager_load model_fields (some names) f ≡ eager_load model_fields none f
  unfolding eager_load
  eager_load-allowed names f h = rw h (unfold is_allowed in refl)

  load_fields-allowed :
      (names : List Text) (fs : List (LazyField A))
      → All (λ f. is_allowed (some names) f.name ≡ true) fs
      → load_fields (some names) fs ≡ load_fields none fs
  unfolding load_fields
  load_fields-allowed names [] h = refl
  load_fields-allowed names (f ∷ fs) (h, hs) =
      ap₂ (λ x xs. x ∷ xs) (eager_load-allowed names f h) (load_fields-allowed names fs hs)

  -- With the names of all fields, with or without the underscore, `Eager` loads what `EagerAll` does.
  pub apply_eager-eager_all :
      (n : Text) (ns : List Text) (no_items : Bool) (fs : List (LazyField A))
      → All (λ f. is_allowed (some (map trim_underscore (n ∷ ns))) f.name ≡ true) fs
      → apply_eager (eager (n ∷ ns)) no_items fs ≡ apply_eager eager_all no_items fs
  unfolding apply_eager
  apply_eager-eager_all n ns no_items fs h =
      rw (load_fields-allowed (map trim_underscore (n ∷ ns)) fs h) refl
