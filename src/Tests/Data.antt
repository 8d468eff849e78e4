-- ===== src/Tests/Data.antt =====
-- A schema on rows that are numbers, with what the runs of its filters need of SQL and of GORM.
use goth_scaffold.Prelude.{
  ℕ, ◌%◌, ◌≡◌, refl, sym, ap, ◌∙◌, subst, Text, codes, Bool, ◌&&◌, ◌||◌, if◌then◌else◌, ltb, ◌==◌,
  length, List, [], keep, text_eq, Option, none, some, if_rule, arith, ℤ, pos, negsuc,
}
use mathlib.Core.List.Perm
use goth_scaffold.Queryfilter.Unicode.{ascii}
use goth_scaffold.Queryfilter.Syntax.{Op}
use goth_scaffold.Queryfilter.Schema.{Arg, FieldDef, Schema, field_type_string, field_type_int}
use goth_scaffold.Queryfilter.Conditions.{Gorm}
use goth_scaffold.Queryfilter.Conditions.Marks.{marks, IsMarked}
use goth_scaffold.Queryfilter.Conditions.Injection.{HasFixedExprs, expr_sql}
use goth_scaffold.Queryfilter.Memory.Sorting.{IsComparator, HasComparators}
use goth_scaffold.Queryfilter.Semantics.{SqlMeaning}
use goth_scaffold.Queryfilter.Semantics.Find.{Rows}
use goth_scaffold.Dialect.{Dialect, mysql_dialect}

abbrev pub no_float : Text → Option ℕ
no_float s = none

-- A field of the database
abbrev pub price : FieldDef ℕ ℕ
price = record {
  typ = field_type_int;
  allowed_ops = [];
  column = codes "price";
  sql_expr = none;
  filter_fn = none;
  sort_column = codes "price";
  sort_fn = none;
}

abbrev pub by_size : ℕ → ℕ → ℤ
by_size a b = if ltb a b then negsuc 0 else if ltb b a then pos 1 else pos 0

-- A field in memory
abbrev pub even : FieldDef ℕ ℕ
even = record {
  typ = field_type_string;
  allowed_ops = [];
  column = [];
  sql_expr = none;
  filter_fn = some (λ x op v. x % 2 == 0);
  sort_column = [];
  sort_fn = some by_size;
}

-- A field whose expression refuses every value
abbrev pub label : FieldDef ℕ ℕ
label = record {
  typ = field_type_string;
  allowed_ops = [];
  column = [];
  sql_expr = some (λ op v. none);
  filter_fn = none;
  sort_column = [];
  sort_fn = none;
}

unfoldable pub items : Schema ℕ ℕ
unfolding text_eq
items field =
    if text_eq field (codes "price")
    then some price
    else if text_eq field (codes "even")
    then some even
    else if text_eq field (codes "label")
    then some label
    else none

items_rule :
    (P : FieldDef ℕ ℕ → Type 0)
    → P price
    → P even
    → P label
    → (field : Text) (def : FieldDef ℕ ℕ) → items field ≡ some def
    → P def
unfolding items
items_rule P a b c field def =
    if_rule (λ o. o ≡ some def → P def) (text_eq field (codes "price")) (λ _ e. subst P (cc e) a)
      (λ _.
        if_rule (λ o. o ≡ some def → P def) (text_eq field (codes "even")) (λ _ e. subst P (cc e) b)
          (λ _.
            if_rule (λ o. o ≡ some def → P def) (text_eq field (codes "label"))
              (λ _ e. subst P (cc e) c) (λ _ e. absurd (cc e))))

abbrev pub mysql : Dialect
mysql = mysql_dialect ascii

pub twice_or : (b : Bool) → b ≡ (b || b)
twice_or b = ground arith

pub twice_and : (b : Bool) → b ≡ (b && b)
twice_and b = ground arith

-- Every condition selects the rows below 10.
abbrev pub below_ten : SqlMeaning ℕ ℕ
below_ten = record {
  holds = λ sql args x. ltb x 10;
  holds-or = λ l r x h k. twice_or (ltb x 10);
  holds-and = λ l r x h k. twice_and (ltb x 10);
}

abbrev pub gorm : Gorm ℕ
gorm = record {
  DB = List ℕ;
  where_cond = λ db sql args. keep (λ x. ltb x 10) db;
  order = λ db sql. db;
}

abbrev pub gorm_rows : Rows below_ten gorm
gorm_rows = record {
  rows = λ db. db;
  rows-where = λ db s args. refl;
  rows-order = λ db s. Perm.refl db;
}

-- An expression that refuses every value has what each of its results has.
refusing :
    (e : Op → Text → Option (Text × List (Arg ℕ))) (op : Op) (value : Text)
    → label.sql_expr ≡ some e
    → e op value ≡ none
refusing e op value h =
    let same : (λ (op' : Op) (v : Text). none) ≡ e = cc h in ap (λ g. g op value) (sym same)

pub items-IsMarked : IsMarked mysql items
unfolding mysql_dialect marks
items-IsMarked = record {
  like = refl;
  columns = items_rule (λ def. marks (mysql.quote_ident def.column) ≡ 0) refl refl refl;
  exprs = λ field def e op value sql args h.
      items_rule
        (λ d. d.sql_expr ≡ some e → e op value ≡ some (sql, args) → marks sql ≡ length args)
        (λ k. absurd (cc k)) (λ k. absurd (cc k))
        (λ k r. let gone : e op value ≡ none = refusing e op value k in absurd (cc (gone, r))) field
        def h;
}

pub items-HasFixedExprs : HasFixedExprs items
items-HasFixedExprs field def e h =
    items_rule
      (λ d. d.sql_expr ≡ some e → (op : Op) (v w : Text) → expr_sql (e op v) ≡ expr_sql (e op w))
      (λ k. absurd (cc k)) (λ k. absurd (cc k))
      (λ k op v w. ap expr_sql (refusing e op v k ∙ sym (refusing e op w k))) field def h

by_size-IsComparator : IsComparator by_size
by_size-IsComparator = record { flip = λ a b. ground arith; le_trans = λ a b c h k. ground arith }

pub items-HasComparators : HasComparators items
items-HasComparators field def f h =
    items_rule (λ d. d.sort_fn ≡ some f → IsComparator f) (λ k. absurd (cc k))
      (λ k. subst IsComparator (cc k) by_size-IsComparator) (λ k. absurd (cc k)) field def h
