-- ===== src/Queryfilter/Memory.antt =====
-- option.go, the in-memory side: the filter of rows, the stable sort and `ToOption`.
pub mod Sorting
pub mod Order
use goth_scaffold.Prelude.{
  Text, Bool, true, false, not, ◌&&◌, ◌||◌, if◌then◌else◌, List, [], ◌∷◌, keep, is_some, is_neg,
  is_pos, text_eq, Option, none, some, Result, ok, err, ◌>>=◌, ℤ,
}
use goth_scaffold.Dialect.{Dialect}
use goth_scaffold.Queryfilter.Syntax.{Op, logical_and, Node, comparison, logical}
use goth_scaffold.Queryfilter.Sort.{SortField}
use goth_scaffold.Queryfilter.Schema.{FieldDef, Schema, OptionError, validate_node, validate_sorts}
use goth_scaffold.Queryfilter.Conditions.{Gorm, has_mem_sort, build_gorm_scope}

-- `sort.SliceStable`: an element goes before the first one that it is less than, from the back.
module _ {T : Type 0} (less : T → T → Bool) where
  unfoldable pub insert_stable : T → List T → List T
  insert_stable x [] = x ∷ []
  insert_stable x (y ∷ ys) =
      let rest = insert_stable x ys in if less y x then y ∷ rest else x ∷ y ∷ ys

  unfoldable pub slice_stable : List T → List T
  unfolding insert_stable
  slice_stable [] = []
  slice_stable (x ∷ xs) = insert_stable x (slice_stable xs)

abbrev filter_with : {T : Type 0} → Option (T → Op → Text → Bool) → T → Op → Text → Bool
filter_with none item op value = true
filter_with (some f) item op value = f item op value

-- What a comparison says, if it says anything: `cmp == 0` goes on to the next field.
abbrev pub verdict : Bool → ℤ → Bool → Bool
verdict desc cmp later = if is_pos cmp then desc else if is_neg cmp then not desc else later

abbrev pub compare_with : {T : Type 0} → Option (T → T → ℤ) → Bool → T → T → Bool → Bool
compare_with none desc a b later = later
compare_with (some f) desc a b later = verdict desc (f a b) later

module _ {T A : Type 0} where
  abbrev pub has_filter_fn : Option (FieldDef T A) → Bool
  has_filter_fn none = false
  has_filter_fn (some def) = is_some def.filter_fn

  unfoldable pub has_mem_tree : Schema T A → Node → Bool
  has_mem_tree schema (comparison field op value) = has_filter_fn (schema field)
  has_mem_tree schema (logical op left right) =
      has_mem_tree schema left || has_mem_tree schema right

  -- `hasMemFilter`
  unfoldable pub has_mem_filter : Schema T A → Option Node → Bool
  unfolding has_mem_tree
  has_mem_filter schema none = false
  has_mem_filter schema (some n) = has_mem_tree schema n

  -- `case *ComparisonNode` of `evalNode`, on what the schema has for the field
  unfoldable pub eval_leaf : Option (FieldDef T A) → T → Op → Text → Bool
  eval_leaf none item op value = true
  eval_leaf (some def) item op value = filter_with def.filter_fn item op value

  unfoldable pub eval_tree : Schema T A → Node → T → Bool
  unfolding eval_leaf text_eq
  eval_tree schema (comparison field op value) item = eval_leaf (schema field) item op value
  eval_tree schema (logical op left right) item =
      let l = eval_tree schema left item in
      let r = eval_tree schema right item in if text_eq op logical_and then l && r else l || r

  -- `evalNode`
  unfoldable pub eval_node : Schema T A → Option Node → T → Bool
  unfolding eval_tree
  eval_node schema none item = true
  eval_node schema (some n) item = eval_tree schema n item

  abbrev pub compare_field : Option (FieldDef T A) → Bool → T → T → Bool → Bool
  compare_field none desc a b later = later
  compare_field (some def) desc a b later = compare_with def.sort_fn desc a b later

  -- `compareItems`
  unfoldable pub compare_items : List SortField → Schema T A → T → T → Bool
  compare_items [] schema a b = false
  compare_items (s ∷ sorts) schema a b =
      compare_field (schema s.field) s.desc a b (compare_items sorts schema a b)

  -- `buildInMemoryFn`
  unfoldable pub build_in_memory_fn :
      Option Node → List SortField → Schema T A → Option (List T → List T)
  unfolding has_mem_filter has_mem_sort eval_node slice_stable compare_items
  build_in_memory_fn node sorts schema =
      let need_filter = has_mem_filter schema node in
      let need_sort = has_mem_sort sorts schema in
      if not need_filter && not need_sort
      then none
      else some (λ items.
        let filtered = if need_filter then keep (eval_node schema node) items else items in
        if need_sort then slice_stable (compare_items sorts schema) filtered else filtered)

-- `models.QueryOpt`: the scope and the in-memory pass, either of which may be nil.
pub record QueryOption (DB T : Type 0) : Type 0 where
  pub gorm_fn : Option (DB → DB)
  pub filter_fn : Option (List T → List T)

-- A call of a function that may be nil: then the argument is returned.
abbrev pub call_or_keep : {B : Type 0} → Option (B → B) → B → B
call_or_keep none b = b
call_or_keep (some f) b = f b

-- `ApplyGorm`
abbrev pub apply_gorm : {DB T : Type 0} → QueryOption DB T → DB → DB
apply_gorm o db = call_or_keep o.gorm_fn db

-- `ApplyFilter`
abbrev pub apply_filter : {DB T : Type 0} → QueryOption DB T → List T → List T
apply_filter o items = call_or_keep o.filter_fn items

-- `ToOption`
unfoldable pub to_option :
    {T A : Type 0}
    → (Text → Option A)
    → Dialect
    → (g : Gorm A) → Option Node
    → List SortField
    → Schema T A
    → Result OptionError (QueryOption g.DB T)
unfolding validate_node validate_sorts build_gorm_scope build_in_memory_fn
to_option parse_float d g node sorts schema = do
  _ ← validate_node parse_float schema node
  _ ← validate_sorts schema sorts
  ok (record {
    gorm_fn = build_gorm_scope d g parse_float node sorts schema;
    filter_fn = build_in_memory_fn node sorts schema;
  })
