-- ===== src/Queryfilter/Schema/Laws.antt =====
-- option.go: the validation against a description of the filters that a schema allows.
use goth_scaffold.Prelude.{
  ◌≡◌, ◌↔◌, refl, Text, Bool, true, not, ◌||◌, is_some, is_empty, parse_int, parse_bool, Option,
  none, some, ok, bind-eq-ok, arith, ℤ,
}
use goth_scaffold.Queryfilter.Syntax.{Op, Node, comparison, logical}
use goth_scaffold.Queryfilter.Schema.{
  FieldType, field_type_string, field_type_int, field_type_bool, field_type_float, FieldDef, Schema,
  has_ops, ops_contain, check_value, check_field, validate_tree,
}

module _ {A : Type 0} (parse_float : Text → Option A) where
  -- The value can be read at the field's type.
  abbrev pub IsReadable : FieldType → Text → Type 0
  IsReadable field_type_string value = Unit
  IsReadable field_type_int value = (i : ℤ) × (parse_int value ≡ some i)
  IsReadable field_type_bool value = (b : Bool) × (parse_bool value ≡ some b)
  IsReadable field_type_float value = (a : A) × (parse_float value ≡ some a)

-- The leaf's field is in the schema and filterable, with an allowed operator and a readable value.
pub record IsAllowed {T A : Type 0} (parse_float : Text → Option A) (schema : Schema T A)
    (field : Text) (op : Op) (value : Text) : Type 0 where
  pub def : FieldDef T A
  pub known : schema field ≡ some def
  pub filterable :
      (not (is_empty def.column) || is_some def.sql_expr || is_some def.filter_fn) ≡ true
  pub allowed : (not (has_ops def.allowed_ops) || ops_contain def.allowed_ops op) ≡ true
  pub readable : IsReadable parse_float def.typ value

module _ {T A : Type 0} (parse_float : Text → Option A) (schema : Schema T A) where
  -- Every leaf of the tree is allowed.
  abbrev pub AllAllowed : Node → Type 0
  AllAllowed (comparison field op value) = IsAllowed parse_float schema field op value
  AllAllowed (logical op l r) = AllAllowed l × AllAllowed r

  some_of : {B : Type 0} (o : Option B) → is_some o ≡ true → (b : B) × (o ≡ some b)
  some_of none h = cc
  some_of (some b) h = (b, refl)

  check_value-IsReadable :
      (t : FieldType) (field value : Text)
      → check_value parse_float t field value ≡ ok tt
      → IsReadable parse_float t value
  unfolding check_value
  check_value-IsReadable field_type_string field value h = tt
  check_value-IsReadable field_type_int field value h = some_of (parse_int value) (ground arith)
  check_value-IsReadable field_type_bool field value h = some_of (parse_bool value) (ground arith)
  check_value-IsReadable field_type_float field value h = some_of (parse_float value) (ground arith)

  IsReadable-check_value :
      (t : FieldType) (field value : Text)
      → IsReadable parse_float t value
      → check_value parse_float t field value ≡ ok tt
  unfolding check_value
  IsReadable-check_value field_type_string field value h = refl
  IsReadable-check_value field_type_int field value (i, e) = rw e
  IsReadable-check_value field_type_bool field value (b, e) = rw e
  IsReadable-check_value field_type_float field value (a, e) = rw e

  check_field-IsAllowed :
      (f : Option (FieldDef T A)) (field : Text) (op : Op) (value : Text)
      → schema field ≡ f
      → check_field parse_float f field op value ≡ ok tt
      → IsAllowed parse_float schema field op value
  unfolding check_field
  check_field-IsAllowed none field op value e h = cc
  check_field-IsAllowed (some def) field op value e h = record {
    def = def;
    known = e;
    filterable = ground arith;
    allowed = ground arith;
    readable = check_value-IsReadable def.typ field value (ground arith);
  }

  IsAllowed-check_field :
      (field : Text) (op : Op) (value : Text)
      → IsAllowed parse_float schema field op value
      → check_field parse_float (schema field) field op value ≡ ok tt
  unfolding check_field
  IsAllowed-check_field field op value a = rw a.known (
      ground
        (arith, a.filterable, a.allowed, IsReadable-check_value a.def.typ field value a.readable))

  validate_tree-AllAllowed : (n : Node) → validate_tree parse_float schema n ≡ ok tt → AllAllowed n
  unfolding validate_tree
  validate_tree-AllAllowed (comparison field op value) h =
      check_field-IsAllowed (schema field) field op value refl h
  validate_tree-AllAllowed (logical op l r) h =
      let (x, hl, hr) = bind-eq-ok (validate_tree parse_float schema l) _ h in
      (validate_tree-AllAllowed l hl, validate_tree-AllAllowed r hr)

  AllAllowed-validate_tree : (n : Node) → AllAllowed n → validate_tree parse_float schema n ≡ ok tt
  unfolding validate_tree
  AllAllowed-validate_tree (comparison field op value) a = IsAllowed-check_field field op value a
  AllAllowed-validate_tree (logical op l r) (a, b) =
      rw (AllAllowed-validate_tree l a) (AllAllowed-validate_tree r b)

  -- The validation accepts a tree exactly if each of its leaves names a filterable field of the schema
  -- with an operator that the field allows and a value that can be read at the field's type.
  pub validate_tree_iff : (n : Node) → (validate_tree parse_float schema n ≡ ok tt) ↔ AllAllowed n
  validate_tree_iff n = (validate_tree-AllAllowed n, AllAllowed-validate_tree n)
