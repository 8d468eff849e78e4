-- ===== src/Keyspace/Hooks.antt =====
-- app/repositories/cassandra_repository.go: `Save`, `Delete` and `UniqueCreate` around their statements.
use goth_scaffold.Prelude.{
  ℕ, Text, codes, text_eq, is_empty, contains, has_prefix, Bool, true, false, if◌then◌else◌, List,
  [], ◌∷◌, ◌++◌, Option, none, some, ℤ, ◌≡◌, refl, arith, append_assoc, if_rule, is_pos,
}
use goth_scaffold.Saving.{unless_error}
use goth_scaffold.Keyspace.{
  CqlValue, CqlEntity, save_query, delete_query, add_usage, format_int, save_columns, add_marks,
}

-- The entity with its hooks (one that it lacks returns no error), the session and the metadata of the
-- keyspace; each changes the state `S`, which holds the entity. `map_scan` runs a query and tells whether
-- its first row says `[applied]`.
pub record CqlStore (S E F V : Type 0) : Type 0 where
  pub pre_save_hook : S → Option E × S
  pub post_save_hook : S → Option E × S
  pub pre_delete_hook : S → Option E × S
  pub post_delete_hook : S → Option E × S
  pub entity_of : S → CqlEntity F V
  pub clock : S → ℤ
  pub column_kinds : S → Option (Text → Text)
  pub exec : Text → List (CqlValue F V) → S → Option E × S
  pub map_scan : Text → List (CqlValue F V) → S → Bool × S
  pub close_iter : S → Option E × S
  pub upper : Text → Text
  pub not_applied : E
  pub ttl_unsupported : E
  pub metadata_not_found : E

-- `strings.TrimSuffix`, of a suffix that is not empty
abbrev pub trim_suffix : Text → Text → Text
unfolding text_eq
trim_suffix [] suffix = []
trim_suffix (c ∷ s) suffix =
    let rest = trim_suffix s suffix in if text_eq (c ∷ s) suffix then [] else c ∷ rest

module _ {S E F V : Type 0} (d : CqlStore S E F V) where
  -- `_Try` behind `query.Iter()`
  abbrev pub after_scan : Bool × S → Option E × S
  after_scan (false, s) = (some d.not_applied, s)
  after_scan (true, s) = d.close_iter s

  -- `_Try`
  unfoldable pub try_query : Text → List (CqlValue F V) → S → Option E × S
  try_query stmt args s = after_scan (d.map_scan stmt args s)

  abbrev pub save_statement : S → Text × List (CqlValue F V)
  unfolding save_query
  save_statement s = save_query (d.clock s) (d.entity_of s)

  abbrev pub unique_statement : S → Text
  unfolding trim_suffix save_statement
  unique_statement s =
      trim_suffix (trim_suffix (save_statement s).0 (codes " ")) (codes ";")
      ++ codes " IF NOT EXISTS;"

  abbrev pub create_if_new : S → Option E × S
  unfolding contains unique_statement save_statement try_query
  create_if_new s =
      let created =
        unless_error (try_query (unique_statement s) (save_statement s).1 s) d.post_save_hook in
      if contains (d.upper (save_statement s).0) (codes "USING TTL")
      then (some d.ttl_unsupported, s)
      else created

  -- `UniqueCreate`
  unfoldable pub unique_create : S → Option E × S
  unfolding create_if_new
  unique_create s = unless_error (d.pre_save_hook s) create_if_new

  -- `Save`
  unfoldable pub save_cql : S → Option E × S
  unfolding save_statement
  save_cql s =
      unless_error (d.pre_save_hook s)
        (λ s. unless_error (d.exec (save_statement s).0 (save_statement s).1 s) d.post_save_hook)

  abbrev pub delete_rows : Text × List (CqlValue F V) → S → Option E × S
  delete_rows (stmt, args) s =
      if is_empty stmt
      then (some d.metadata_not_found, s)
      else unless_error (d.exec stmt args s) d.post_delete_hook

  -- `Delete`
  unfoldable pub delete_cql : S → Option E × S
  unfolding delete_query
  delete_cql s =
      unless_error (d.pre_delete_hook s)
        (λ s. delete_rows (delete_query (d.column_kinds s) (d.entity_of s)) s)

  -- What is relied on of `strings.ToUpper`: it keeps a text in capitals inside another.
  pub record KeepsCapitals : Type 0 where
    pub kept :
        (a b : Text)
        → d.upper (a ++ (codes "USING TTL" ++ b)) ≡ d.upper a ++ (codes "USING TTL" ++ d.upper b)

has_prefix-append : (p b : Text) → has_prefix (p ++ b) p ≡ true
unfolding has_prefix
has_prefix-append [] [] = refl
has_prefix-append [] (c ∷ b) = refl
has_prefix-append (c ∷ p) b = ground (arith, has_prefix-append p b)

contains-append : (a : Text) (c : ℕ) (p b : Text) → contains (a ++ (c ∷ p ++ b)) (c ∷ p) ≡ true
unfolding contains
contains-append [] c p b = rw (has_prefix-append (c ∷ p) b) refl
contains-append (x ∷ a) c p b = ground (arith, contains-append a c p b)

abbrev capitals : Text
capitals = codes "USING TTL"

abbrev Holds : Text → Type 0
Holds stmt = (a : Text) × (b : Text) × (stmt ≡ a ++ (capitals ++ b))

after_ttl : (ttl : ℤ) (stmt : Text) → Holds (stmt ++ (codes " USING TTL " ++ format_int ttl))
after_ttl ttl stmt = (stmt ++ (b' ' ∷ []), b' ' ∷ format_int ttl, rw (append_assoc stmt) refl)

Holds-append : (stmt more : Text) → Holds stmt → Holds (stmt ++ more)
Holds-append stmt more (a, b, e) = (a, b ++ more, rw (e, append_assoc a) refl)

add_usage-Holds :
    (ttl : ℤ) (timestamp : Option ℤ) (stmt : Text) → Holds (add_usage (some ttl) timestamp stmt)
add_usage-Holds ttl none stmt = after_ttl ttl stmt
add_usage-Holds ttl (some t) stmt =
    if_rule Holds (is_pos t)
      (λ h.
        Holds-append (stmt ++ (codes " USING TTL " ++ format_int ttl))
          (codes " AND" ++ (codes " TIMESTAMP = " ++ format_int t)) (after_ttl ttl stmt))
      (λ h. after_ttl ttl stmt)

module _ {S E F V : Type 0} (d : CqlStore S E F V) (k : KeepsCapitals d) where
  save_statement-contains :
      (s : S) (ttl : ℤ)
      → (d.entity_of s).ttl ≡ some ttl
      → contains (d.upper (save_statement d s).0) capitals ≡ true
  unfolding save_statement save_query
  save_statement-contains s ttl e =
      let entity = d.entity_of s in
      let (stmt, args) =
        save_columns (d.clock s) entity.entity_fields
          (codes "INSERT INTO " ++ (entity.table ++ codes "(")) [] 0 in
      let found =
        add_usage-Holds ttl entity.timestamp
          (add_marks 0 args (stmt ++ codes ") VALUES (") ++ codes ")") in
      rw (e, found.2, k.kept found.0 found.1)
        (contains-append (d.upper found.0) b'U' (codes "SING TTL") (d.upper found.1))

  -- b
  pub unique_create_ttl :
      (s s' : S) (ttl : ℤ)
      → d.pre_save_hook s ≡ (none, s')
      → (d.entity_of s').ttl ≡ some ttl
      → unique_create d s ≡ (some d.ttl_unsupported, s')
  unfolding unique_create create_if_new save_statement
  unique_create_ttl s s' ttl pre e = rw (pre, save_statement-contains s' ttl e) refl
