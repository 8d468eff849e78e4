-- ===== src/Queryfilter/Memory/Order.antt =====
-- option.go: the order that the fields of a sort describe, apart from `compareItems`.
use mathlib.Core.List.{Perm}
use goth_scaffold.Prelude.{
  ◌≡◌, refl, subst, ap, fun_ext, ◌⊎◌, Text, Bool, true, false, not, ◌&&◌, List, [], ◌∷◌, ◌++◌, keep,
  all, All, ◌∙◌, Option, none, some, arith, inl, inr, ℤ, is_neg, is_pos,
}
use goth_scaffold.Queryfilter.Sort.{SortField}
use goth_scaffold.Queryfilter.Schema.{FieldDef, Schema}
use goth_scaffold.Queryfilter.Memory.{
  slice_stable, compare_items, compare_field, compare_with, verdict,
}
use goth_scaffold.Queryfilter.Memory.Sorting.{
  is_sorted, leads, equivalent, IsComparator, HasComparators, slice_stable-compare_items,
}

abbrev pub tie_with : {T : Type 0} → Option (T → T → ℤ) → T → T → Bool
tie_with none a b = true
tie_with (some f) a b = not (is_neg (f a b)) && not (is_pos (f a b))

module _ {T A : Type 0} where
  abbrev pub tie_on : Option (FieldDef T A) → T → T → Bool
  tie_on none a b = true
  tie_on (some def) a b = tie_with def.sort_fn a b

module _ {T A : Type 0} (schema : Schema T A) where
  -- No field tells two rows apart.
  abbrev pub is_tied : List SortField → T → T → Bool
  is_tied sorts a b = all (λ s. tie_on (schema s.field) a b) sorts

  -- A field puts `a` before `b`: it is less, ascending, or greater, descending.
  pub record Wins (s : SortField) (a b : T) : Type 0 where
    pub def : FieldDef T A
    pub sort_fn : T → T → ℤ
    pub has_field : schema s.field ≡ some def
    pub has_fn : def.sort_fn ≡ some sort_fn
    pub direction :
        ((s.desc ≡ false) × (is_neg (sort_fn a b) ≡ true))
        ⊎ ((s.desc ≡ true) × (is_pos (sort_fn a b) ≡ true))

  -- The first field that tells two rows apart puts `a` before `b`.
  pub record Precedes (sorts : List SortField) (a b : T) : Type 0 where
    pub before : List SortField
    pub decisive : SortField
    pub behind : List SortField
    pub is_split : sorts ≡ before ++ (decisive ∷ behind)
    pub tied_before : is_tied before a b ≡ true
    pub wins : Wins decisive a b

  -- No row stands behind one that it precedes.
  abbrev pub Ordered : List SortField → List T → Type 0
  Ordered sorts [] = Unit
  Ordered sorts (x ∷ xs) = All (λ y. ¬ Precedes sorts y x) xs × Ordered sorts xs

  verdict-Wins :
      (desc : Bool) (z : ℤ) (later : Bool)
      → ((desc ≡ false) × (is_neg z ≡ true)) ⊎ ((desc ≡ true) × (is_pos z ≡ true))
      → verdict desc z later ≡ true
  verdict-Wins desc z later (inl (d, n)) = ground arith
  verdict-Wins desc z later (inr (d, n)) = ground arith

  compare_items-Wins :
      (s : SortField) (rest : List SortField) (a b : T)
      → Wins s a b
      → compare_items (s ∷ rest) schema a b ≡ true
  unfolding compare_items
  compare_items-Wins s rest a b w =
      rw (w.has_field, w.has_fn)
        (verdict-Wins s.desc (w.sort_fn a b) (compare_items rest schema a b) w.direction)

  compare_with-tied :
      (g : Option (T → T → ℤ)) (desc : Bool) (a b : T) (later : Bool)
      → tie_with g a b ≡ true
      → compare_with g desc a b later ≡ later
  compare_with-tied none desc a b later h = refl
  compare_with-tied (some f) desc a b later h = ground arith

  compare_field-tied :
      (def : Option (FieldDef T A)) (desc : Bool) (a b : T) (later : Bool)
      → tie_on def a b ≡ true
      → compare_field def desc a b later ≡ later
  compare_field-tied none desc a b later h = refl
  compare_field-tied (some def) desc a b later h = compare_with-tied def.sort_fn desc a b later h

  compare_items-before :
      (before : List SortField) (s : SortField) (behind : List SortField) (a b : T)
      → is_tied before a b ≡ true
      → Wins s a b
      → compare_items (before ++ (s ∷ behind)) schema a b ≡ true
  unfolding compare_items
  compare_items-before [] s behind a b h w = compare_items-Wins s behind a b w
  compare_items-before (t ∷ before) s behind a b h w =
      let later = compare_items (before ++ (s ∷ behind)) schema a b in
      let here : tie_on (schema t.field) a b ≡ true = ground (arith, h) in
      let there : is_tied before a b ≡ true = ground (arith, h) in
      compare_field-tied (schema t.field) t.desc a b later here
      ∙ compare_items-before before s behind a b there w

  compare_items-Precedes :
      (sorts : List SortField) (a b : T)
      → Precedes sorts a b
      → compare_items sorts schema a b ≡ true
  compare_items-Precedes sorts a b p =
      rw p.is_split (compare_items-before p.before p.decisive p.behind a b p.tied_before p.wins)

  leads-Precedes :
      (sorts : List SortField) (x : T) (ys : List T)
      → leads (compare_items sorts schema) x ys ≡ true
      → All (λ y. ¬ Precedes sorts y x) ys
  leads-Precedes sorts x [] h = tt
  leads-Precedes sorts x (y ∷ ys) h = (
    λ p. (let c = compare_items-Precedes sorts y x p in ground (arith, h, c)),
    leads-Precedes sorts x ys (ground (arith, h)),
  )

  is_sorted-Ordered :
      (sorts : List SortField) (xs : List T)
      → is_sorted (compare_items sorts schema) xs ≡ true
      → Ordered sorts xs
  is_sorted-Ordered sorts [] h = tt
  is_sorted-Ordered sorts (x ∷ xs) h = (
    leads-Precedes sorts x xs (ground (arith, h)),
    is_sorted-Ordered sorts xs (ground (arith, h)),
  )

module _ {T A : Type 0} (schema : Schema T A) (comparators : HasComparators schema) where
  with-is_tied :
      (g : Option (T → T → ℤ)) (desc : Bool) (k a : T) (later back : Bool)
      → ((f : T → T → ℤ) → g ≡ some f → IsComparator f)
      → (not (compare_with g desc k a later) && not (compare_with g desc a k back))
        ≡ (tie_with g k a && (not later && not back))
  with-is_tied none desc k a later back c = refl
  with-is_tied (some f) desc k a later back c =
      ground (arith, (c f refl).flip k a, (c f refl).flip a k)

  field-is_tied :
      (x : Option (FieldDef T A)) (field : Text) (desc : Bool) (k a : T) (later back : Bool)
      → schema field ≡ x
      → (not (compare_field x desc k a later) && not (compare_field x desc a k back))
        ≡ (tie_on x k a && (not later && not back))
  field-is_tied none field desc k a later back e = refl
  field-is_tied (some def) field desc k a later back e =
      with-is_tied def.sort_fn desc k a later back (λ f h. comparators field def f e h)

  equivalent-is_tied :
      (sorts : List SortField) (k a : T)
      → equivalent (compare_items sorts schema) k a ≡ is_tied schema sorts k a
  unfolding compare_items
  equivalent-is_tied [] k a = refl
  equivalent-is_tied (s ∷ sorts) k a =
      field-is_tied (schema s.field) s.field s.desc k a _ _ refl
      ∙ ap (λ t. tie_on (schema s.field) k a && t) (equivalent-is_tied sorts k a)

  -- If every `SortFn` is a comparator, the in-memory sort by any list of fields gives the same
  -- rows; no row stands behind one that it precedes by the first field that tells the two apart,
  -- ascending or descending; and the rows that no field tells apart from a given one keep the
  -- order that they had.
  pub sort_by_fields :
      (sorts : List SortField) (rows : List T)
      → let sorted = slice_stable (compare_items sorts schema) rows in
        Perm sorted rows
        × Ordered schema sorts sorted
        × ((k : T) → keep (is_tied schema sorts k) sorted ≡ keep (is_tied schema sorts k) rows)
  sort_by_fields sorts rows =
      let (same_rows, in_order, stable) =
        slice_stable-compare_items schema comparators sorts rows in
      (
        same_rows,
        is_sorted-Ordered schema sorts (slice_stable (compare_items sorts schema) rows) in_order,
        λ k.
            subst (λ p. keep p (slice_stable (compare_items sorts schema) rows) ≡ keep p rows)
              (fun_ext (equivalent-is_tied sorts k)) (stable k),
      )
