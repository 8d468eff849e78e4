-- ===== src/Queryfilter/Semantics.antt =====
-- What a filter means for a row, apart from how `ToOption` splits it between the database and memory.
pub mod Stored
pub mod Split
pub mod Mixed
pub mod Find
use goth_scaffold.Prelude.{
  ◌≡◌, Text, codes, Bool, true, false, ◌&&◌, ◌||◌, if◌then◌else◌, List, ◌++◌, all, text_eq, is_some,
  Option, none, some, ◌⊎◌,
}
use goth_scaffold.Dialect.{Dialect}
use goth_scaffold.Queryfilter.Syntax.{
  Op, LogicalOp, logical_and, logical_or, Node, comparison, logical,
}
use goth_scaffold.Queryfilter.Schema.{Arg, FieldDef, Schema, is_db_level}
use goth_scaffold.Queryfilter.Conditions.{DbCond, join_sql, leaf_to_db_cond, node_to_db_cond}
use goth_scaffold.Queryfilter.Conditions.Marks.{IsBalanced}
use goth_scaffold.Queryfilter.Memory.{eval_leaf, has_filter_fn}

-- Which rows the database selects by an SQL condition with its arguments. Of SQL it is asked that
-- `(p) OR (q)` and `(p) AND (q)` select what `p` or `q`, and `p` and `q`, select, each with its own
-- arguments where the placeholders are as many as the arguments.
pub record SqlMeaning (T A : Type 0) : Type 0 where
  pub holds : Text → List (Arg A) → T → Bool
  pub holds-or :
      (l r : DbCond A) (x : T)
      → IsBalanced l
      → IsBalanced r
      → holds (join_sql (codes "OR") l.sql r.sql) (l.args ++ r.args) x
        ≡ (holds l.sql l.args x || holds r.sql r.args x)
  pub holds-and :
      (l r : DbCond A) (x : T)
      → IsBalanced l
      → IsBalanced r
      → holds (join_sql (codes "AND") l.sql r.sql) (l.args ++ r.args) x
        ≡ (holds l.sql l.args x && holds r.sql r.args x)

-- The logical operators of a tree are those that the parser writes.
abbrev pub HasWords : Node → Type 0
HasWords (comparison field op value) = Unit
HasWords (logical op l r) = ((op ≡ logical_and) ⊎ (op ≡ logical_or)) × HasWords l × HasWords r

module _ {T A : Type 0} (parse_float : Text → Option A) (d : Dialect) (sql : SqlMeaning T A) where
  abbrev pub cond_holds : Option (DbCond A) → T → Bool
  cond_holds none x = false
  cond_holds (some c) x = sql.holds c.sql c.args x

  -- A leaf of the database means its condition, and a leaf in memory its function.
  unfoldable pub leaf_denotes : Option (FieldDef T A) → Op → Text → T → Bool
  leaf_denotes none op value x = true
  leaf_denotes (some def) op value x =
      if is_db_level def
      then cond_holds (leaf_to_db_cond parse_float d (some def) op value) x
      else eval_leaf (some def) x op value

  unfoldable pub denotes : Schema T A → Node → T → Bool
  unfolding leaf_denotes text_eq
  denotes schema (comparison field op value) x = leaf_denotes (schema field) op value x
  denotes schema (logical op l r) x =
      let a = denotes schema l x in
      let b = denotes schema r x in if text_eq op logical_and then a && b else a || b

  -- A row satisfies every condition of a list.
  abbrev pub all_hold : List (DbCond A) → T → Bool
  all_hold conds x = all (λ c. sql.holds c.sql c.args x) conds

-- Every leaf is evaluated in memory.
abbrev pub AllMemory : {T A : Type 0} → Schema T A → Node → Type 0
AllMemory schema (comparison field op value) = has_filter_fn (schema field) ≡ true
AllMemory schema (logical op l r) = AllMemory schema l × AllMemory schema r

-- A conjunction of parts, each of which the database takes whole or memory takes whole.
pub data Splits {T A : Type 0} (parse_float : Text → Option A) (d : Dialect) (schema : Schema T A)
    : Node → Type 0 where
  stored :
      {n : Node}
      → is_some (node_to_db_cond parse_float d schema n) ≡ true
      → Splits parse_float d schema n
  held : {n : Node} → AllMemory schema n → Splits parse_float d schema n
  both :
      {l r : Node}
      → Splits parse_float d schema l
      → Splits parse_float d schema r
      → Splits parse_float d schema (logical logical_and l r)
