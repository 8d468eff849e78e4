-- ===== src/Queryfilter/Memory/Sorting.antt =====
-- option.go: the stable sort, and the order of `compareItems`.
use mathlib.Core.List.{Perm}
use mathlib.Core.List.Perm
use goth_scaffold.Prelude.{
  ◌≡◌, refl, ◌∙◌, Text, Bool, true, false, not, ◌&&◌, List, [], ◌∷◌, keep, all, Option, none, some,
  arith, Bool-cases, inl, inr, ℤ, is_neg, is_pos,
}
use goth_scaffold.Queryfilter.Sort.{SortField}
use goth_scaffold.Queryfilter.Schema.{FieldDef, Schema}
use goth_scaffold.Queryfilter.Memory.{
  insert_stable, slice_stable, compare_items, compare_field, compare_with, verdict,
}

module _ {T : Type 0} (less : T → T → Bool) where
  insert_stable-perm : (x : T) (xs : List T) → Perm (insert_stable less x xs) (x ∷ xs)
  unfolding insert_stable
  insert_stable-perm x [] = Perm.refl (x ∷ [])
  insert_stable-perm x (y ∷ ys) = elim (Bool-cases (less y x)) [
    | inl before ↦ rw before (Perm.trans (Perm.cons y (insert_stable-perm x ys)) (Perm.swap x y ys))
    | inr after ↦ rw after (Perm.refl (x ∷ y ∷ ys))
  ]

  pub slice_stable-perm : (xs : List T) → Perm (slice_stable less xs) xs
  unfolding slice_stable
  slice_stable-perm [] = Perm.refl []
  slice_stable-perm (x ∷ xs) =
      Perm.trans (insert_stable-perm x (slice_stable less xs)) (Perm.cons x (slice_stable-perm xs))

-- A strict weak order.
pub record IsWeakOrder {T : Type 0} (less : T → T → Bool) : Type 0 where
  pub asym : (a b : T) → less a b ≡ true → less b a ≡ false
  pub trans : (a b c : T) → less b a ≡ false → less c b ≡ false → less c a ≡ false

module _ {T : Type 0} (less : T → T → Bool) where
  -- No later element is less than `x`.
  abbrev pub leads : T → List T → Bool
  leads x ys = all (λ y. not (less y x)) ys

  abbrev pub is_sorted : List T → Bool
  is_sorted [] = true
  is_sorted (x ∷ xs) = leads x xs && is_sorted xs

  abbrev pub equivalent : T → T → Bool
  equivalent a b = not (less a b) && not (less b a)

module _ {T : Type 0} (less : T → T → Bool) (order : IsWeakOrder less) where
  leads-insert_stable :
      (y x : T) (ys : List T)
      → less x y ≡ false
      → leads less y ys ≡ true
      → leads less y (insert_stable less x ys) ≡ true
  unfolding insert_stable
  leads-insert_stable y x [] h k = ground arith
  leads-insert_stable y x (z ∷ zs) h k = ground (arith, leads-insert_stable y x zs h)

  leads_trans :
      (x y : T) (ys : List T) → less y x ≡ false → leads less y ys ≡ true → leads less x ys ≡ true
  leads_trans x y [] h k = refl
  leads_trans x y (z ∷ zs) h k = ground (arith, leads_trans x y zs h, order.trans x y z)

  insert_stable-is_sorted :
      (x : T) (xs : List T)
      → is_sorted less xs ≡ true
      → is_sorted less (insert_stable less x xs) ≡ true
  unfolding insert_stable
  insert_stable-is_sorted x [] h = refl
  insert_stable-is_sorted x (y ∷ ys) h = ground (
    arith,
    insert_stable-is_sorted x ys,
    leads-insert_stable y x ys,
    leads_trans x y ys,
    order.asym y x,
  )

  insert_stable-equivalent :
      (k x : T) (xs : List T)
      → keep (equivalent less k) (insert_stable less x xs) ≡ keep (equivalent less k) (x ∷ xs)
  unfolding insert_stable
  insert_stable-equivalent k x [] = refl
  insert_stable-equivalent k x (y ∷ ys) = ground (
    arith,
    insert_stable-equivalent k x ys,
    order.asym y x,
    order.trans x k y,
    order.trans k x y,
    order.trans y k x,
    order.trans x k y,
  )

  sorted : (xs : List T) → is_sorted less (slice_stable less xs) ≡ true
  unfolding slice_stable
  sorted [] = refl
  sorted (x ∷ xs) = insert_stable-is_sorted x (slice_stable less xs) (sorted xs)

  same_class :
      (k x : T) (xs ys : List T)
      → keep (equivalent less k) xs ≡ keep (equivalent less k) ys
      → keep (equivalent less k) (x ∷ xs) ≡ keep (equivalent less k) (x ∷ ys)
  same_class k x xs ys h = ground arith

  stable :
      (k : T) (xs : List T)
      → keep (equivalent less k) (slice_stable less xs) ≡ keep (equivalent less k) xs
  unfolding slice_stable
  stable k [] = refl
  stable k (x ∷ xs) =
      insert_stable-equivalent k x (slice_stable less xs)
      ∙ same_class k x (slice_stable less xs) xs (stable k xs)

  -- Under a strict weak order the sorted rows are the same rows, none stands before one that is less
  -- than it, and the rows that are equivalent to any row keep the order that they had.
  pub slice_stable-is_sorted :
      (xs : List T)
      → Perm (slice_stable less xs) xs
        × (is_sorted less (slice_stable less xs) ≡ true)
        × ((k : T) → keep (equivalent less k) (slice_stable less xs) ≡ keep (equivalent less k) xs)
  slice_stable-is_sorted xs = (slice_stable-perm less xs, sorted xs, λ k. stable k xs)

-- What `SortFn` has to be: its sign is that of a total preorder.
pub record IsComparator {T : Type 0} (f : T → T → ℤ) : Type 0 where
  pub flip : (a b : T) → is_neg (f a b) ≡ is_pos (f b a)
  pub le_trans :
      (a b c : T) → is_pos (f a b) ≡ false → is_pos (f b c) ≡ false → is_pos (f a c) ≡ false

abbrev pub HasComparators : {T A : Type 0} → Schema T A → Type 0
HasComparators {T} {A} schema =
    (field : Text) (def : FieldDef T A) (f : T → T → ℤ)
    → schema field ≡ some def
    → def.sort_fn ≡ some f
    → IsComparator f

-- The sign of an integer is one of three.
sign_excl : (z : ℤ) → is_pos z ≡ true → is_neg z ≡ false
sign_excl z h = ground arith

module _ {T : Type 0} (f : T → T → ℤ) (c : IsComparator f) (desc : Bool) (less : T → T → Bool)
    (order : IsWeakOrder less) where
  abbrev lex : T → T → Bool
  lex a b = verdict desc (f a b) (less a b)

  lex-asym : (a b : T) → lex a b ≡ true → lex b a ≡ false
  lex-asym a b h =
      ground (arith, c.flip a b, c.flip b a, order.asym a b, sign_excl (f a b), sign_excl (f b a))

  lex_trans : (x y z : T) → lex y x ≡ false → lex z y ≡ false → lex z x ≡ false
  lex_trans x y z h k = ground (
    arith,
    c.flip x y,
    c.flip y x,
    c.flip y z,
    c.flip z y,
    c.flip x z,
    c.flip z x,
    sign_excl (f y x),
    sign_excl (f z y),
    sign_excl (f z x),
    c.le_trans x y z,
    c.le_trans z y x,
    c.le_trans y z x,
    c.le_trans x z y,
    c.le_trans z x y,
    c.le_trans y x z,
    order.trans x y z,
  )

module _ {T A : Type 0} (schema : Schema T A) (comparators : HasComparators schema) where
  lex-IsWeakOrder :
      (g : Option (T → T → ℤ)) (def : FieldDef T A) (field : Text) (desc : Bool)
      (less : T → T → Bool)
      → schema field ≡ some def
      → def.sort_fn ≡ g
      → IsWeakOrder less
      → IsWeakOrder (λ a b. compare_with g desc a b (less a b))
  lex-IsWeakOrder none def field desc less e h o = o
  lex-IsWeakOrder (some f) def field desc less e h o =
      let c = comparators field def f e h in
      record { asym = lex-asym f c desc less o; trans = lex_trans f c desc less o }

  field-IsWeakOrder :
      (x : Option (FieldDef T A)) (field : Text) (desc : Bool) (less : T → T → Bool)
      → schema field ≡ x
      → IsWeakOrder less
      → IsWeakOrder (λ a b. compare_field x desc a b (less a b))
  field-IsWeakOrder none field desc less e o = o
  field-IsWeakOrder (some def) field desc less e o =
      lex-IsWeakOrder def.sort_fn def field desc less e refl o

  compare_items-IsWeakOrder : (sorts : List SortField) → IsWeakOrder (compare_items sorts schema)
  unfolding compare_items
  compare_items-IsWeakOrder [] = record { asym = λ a b h. refl; trans = λ a b c h k. refl }
  compare_items-IsWeakOrder (s ∷ sorts) =
      field-IsWeakOrder (schema s.field) s.field s.desc (compare_items sorts schema) refl
        (compare_items-IsWeakOrder sorts)

  pub slice_stable-compare_items :
      (sorts : List SortField) (rows : List T)
      → let less = compare_items sorts schema in
        Perm (slice_stable less rows) rows
        × (is_sorted less (slice_stable less rows) ≡ true)
        × ((k : T)
            → keep (equivalent less k) (slice_stable less rows) ≡ keep (equivalent less k) rows)
  slice_stable-compare_items sorts rows =
      slice_stable-is_sorted (compare_items sorts schema) (compare_items-IsWeakOrder sorts) rows
