-- ===== src/Keyspace.antt =====
-- app/repositories/cassandra_repository.go: the statements that save and delete an entity in Cassandra, and
-- the operations that run them between the entity's hooks.
pub mod Columns
pub mod Loops
pub mod Statements
pub mod Hooks
use goth_scaffold.Prelude.{
  ℕ, suc, Text, codes, text_eq, is_empty, contains, ltb, ◌==◌, Bool, true, false, not, ◌&&◌, ◌||◌,
  if◌then◌else◌, List, [], ◌∷◌, ◌++◌, length, Option, none, some, ℤ, pos, negsuc, is_pos,
  format_uint,
}
use goth_scaffold.Saving.{unless_error}

-- A field's value as `reflect` shows it, and an argument of a statement; `V` is any other value, `F` a
-- floating-point number.
pub data CqlValue (F V : Type 0) : Type 0 where
  int_value : ℤ → CqlValue F V
  float_value : F → CqlValue F V
  bool_value : Bool → CqlValue F V
  string_value : Text → CqlValue F V
  other_value : V → CqlValue F V

-- A field of the entity, with its `cql` tag and `CanSet()`
pub record CqlField (F V : Type 0) : Type 0 where
  pub cql_name : Text
  pub can_set : Bool
  pub value : CqlValue F V

-- `%d`
unfoldable pub format_int : ℤ → Text
unfolding format_uint
format_int (pos n) = format_uint n
format_int (negsuc n) = b'-' ∷ format_uint (suc n)

abbrev pub is_zero_int : ℤ → Bool
is_zero_int (pos n) = n == 0
is_zero_int (negsuc n) = false

abbrev pub add_column : Text → Text → ℕ → Text
add_column stmt name last = if last == 0 then stmt ++ name else stmt ++ (b',' ∷ name)

abbrev pub add_condition : Text → Text → ℕ → Text
add_condition stmt name last =
    if last == 0
    then stmt ++ (b' ' ∷ (name ++ codes "=?"))
    else stmt ++ (codes " AND" ++ (b' ' ∷ (name ++ codes "=?")))

abbrev pub is_key_kind : Text → Bool
unfolding text_eq
is_key_kind kind = text_eq kind (codes "partition_key") || text_eq kind (codes "clustering")

module _ {F V : Type 0} where
  -- The first branch for an integer: a zero `updated_at` is the time of the call.
  abbrev pub save_value : ℤ → Text → CqlValue F V → CqlValue F V
  unfolding text_eq
  save_value now name (int_value n) =
      if text_eq name (codes "updated_at") && is_zero_int n then int_value now else int_value n
  save_value now name v = v

  -- The loop of `SaveQuery` over the fields; `last` is `lastArgsLength`.
  unfoldable pub save_columns :
      ℤ → List (CqlField F V) → Text → List (CqlValue F V) → ℕ → Text × List (CqlValue F V)
  unfolding save_value
  save_columns now [] stmt args last = (stmt, args)
  save_columns now (f ∷ fs) stmt args last =
      let args' = args ++ (save_value now f.cql_name f.value ∷ []) in
      let kept =
        save_columns now fs
          (if ltb last (length args') then add_column stmt f.cql_name last else stmt) args'
          (if ltb last (length args') then length args' else last) in
      let skipped = save_columns now fs stmt args last in
      if not f.can_set then skipped else if is_empty f.cql_name then skipped else kept

  -- The loop that writes the marks
  unfoldable pub add_marks : ℕ → List (CqlValue F V) → Text → Text
  add_marks i [] stmt = stmt
  add_marks i (a ∷ args) stmt =
      add_marks (suc i) args (if i == 0 then stmt ++ (b'?' ∷ []) else stmt ++ (b',' ∷ b'?' ∷ []))

-- A timestamp is written where the entity has one above zero.
abbrev pub add_timestamp : Text → Option ℤ → Text → Text
add_timestamp word none stmt = stmt
add_timestamp word (some t) stmt =
    if is_pos t then stmt ++ (word ++ (codes " TIMESTAMP = " ++ format_int t)) else stmt

abbrev pub add_usage : Option ℤ → Option ℤ → Text → Text
add_usage (some ttl) timestamp stmt =
    add_timestamp (codes " AND") timestamp (stmt ++ (codes " USING TTL " ++ format_int ttl))
add_usage none timestamp stmt = add_timestamp (codes " USING") timestamp stmt

-- The entity: its table, its fields, and what its optional methods return
pub record CqlEntity (F V : Type 0) : Type 0 where
  pub table : Text
  pub entity_fields : List (CqlField F V)
  pub ttl : Option ℤ
  pub timestamp : Option ℤ

module _ {F V : Type 0} where
  -- `SaveQuery`, at the time `now`
  unfoldable pub save_query : ℤ → CqlEntity F V → Text × List (CqlValue F V)
  unfolding save_columns add_marks
  save_query now entity =
      let (stmt, args) =
        save_columns now entity.entity_fields (codes "INSERT INTO " ++ (entity.table ++ codes "("))
          [] 0 in
      (
        add_usage entity.ttl entity.timestamp
            (add_marks 0 args (stmt ++ codes ") VALUES (") ++ codes ")"),
        args,
      )

  -- The loop of `DeleteQuery` over the fields, with the kinds of the table's columns
  unfoldable pub delete_columns :
      (Text → Text)
      → List (CqlField F V)
      → Text
      → List (CqlValue F V)
      → ℕ
      → Text × List (CqlValue F V)
  unfolding is_key_kind
  delete_columns kind [] stmt args last = (stmt, args)
  delete_columns kind (f ∷ fs) stmt args last =
      let args' = args ++ (f.value ∷ []) in
      let kept =
        delete_columns kind fs
          (if ltb last (length args') then add_condition stmt f.cql_name last else stmt) args'
          (if ltb last (length args') then length args' else last) in
      let skipped = delete_columns kind fs stmt args last in
      if not f.can_set
      then skipped
      else if is_empty f.cql_name
      then skipped
      else if not (is_key_kind (kind f.cql_name))
      then skipped
      else kept

  -- `DeleteQuery`; the metadata of the columns, none where the table is not found
  unfoldable pub delete_query : Option (Text → Text) → CqlEntity F V → Text × List (CqlValue F V)
  unfolding delete_columns
  delete_query none entity = ([], [])
  delete_query (some kind) entity =
      delete_columns kind entity.entity_fields
        (codes "DELETE FROM " ++ (entity.table ++ codes " WHERE ")) [] 0
