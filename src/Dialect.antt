-- ===== src/Dialect.antt =====
-- app/components/dialect: what differs between MySQL and PostgreSQL, and which of the two is in use.
-- The drivers' errors are seen through `errors.As`; the migration drivers are not modelled.
pub mod Quoting
pub mod Registry
use goth_scaffold.Prelude.{
  ℕ, Text, codes, Bool, true, false, not, ◌&&◌, ◌||◌, ◌==◌, if◌then◌else◌, List, [], ◌∷◌, ◌++◌, map,
  all, any, is_empty, split_on, join, contains_char, contains, text_eq, Option, none, some,
}
use goth_scaffold.Queryfilter.Unicode.{Unicode}

-- An error value: the number of the MySQL error and the code of the PostgreSQL error that
-- `errors.As` finds in it, and its message.
pub record DbError : Type 0 where
  pub mysql_number : Option ℕ
  pub pg_code : Option Text
  pub message : Text

pub record Dialect : Type 0 where
  pub name : Text
  pub quote_ident : Text → Text
  pub like_operator : Text
  pub is_duplicate_key_err : DbError → Bool
  pub is_lock_no_wait_err : DbError → Bool
  pub is_retryable_err : DbError → Bool
  pub migration_schema_dir : Text

abbrev pub name_mysql : Text
name_mysql = codes "mysql"

abbrev pub name_postgres : Text
name_postgres = codes "postgres"

abbrev pub wrap : ℕ → ℕ → Text → Text
wrap open_quote close_quote p = open_quote ∷ (p ++ (close_quote ∷ []))

module _ (u : Unicode) where
  abbrev pub is_ident_rune : ℕ → Bool
  is_ident_rune r = u.is_letter r || u.is_digit r || r == b'_' || r == b'.'

  -- `quoteIdent`, at quotes of one rune
  unfoldable pub quote_ident : Text → ℕ → ℕ → Text
  unfolding split_on join
  quote_ident ident open_quote close_quote =
      if is_empty ident
      then ident
      else if contains_char open_quote ident || contains_char close_quote ident
      then ident
      else if not (all is_ident_rune ident)
      then ident
      else let parts = split_on b'.' ident in
        if any is_empty parts then ident else join b'.' (map (wrap open_quote close_quote) parts)

  abbrev has_number : ℕ → DbError → Bool
  has_number n e = elim e.mysql_number [ none ↦ false | some k ↦ k == n ]

  mysql_is_retryable_err : DbError → Bool
  unfolding contains
  mysql_is_retryable_err e =
      has_number 1213 e
      || has_number 1205 e
      || contains e.message (codes "Deadlock")
      || contains e.message (codes "deadlock")
      || contains e.message (codes "Lock wait timeout")

  -- `errors.As` into a `PgError`, else the message
  code_or_message : Text → Text → DbError → Bool
  unfolding contains text_eq
  code_or_message code shown e = elim e.pg_code [
    | some c ↦ text_eq c code
    | none ↦ contains e.message shown
  ]

  has_code : Text → DbError → Bool
  unfolding text_eq
  has_code code e = elim e.pg_code [ some c ↦ text_eq c code | none ↦ false ]

  postgres_is_retryable_err : DbError → Bool
  unfolding contains has_code
  postgres_is_retryable_err e =
      has_code (codes "40001") e
      || has_code (codes "40P01") e
      || contains e.message (codes "serialization_failure")
      || contains e.message (codes "deadlock_detected")
      || contains e.message (codes "SQLSTATE 40001")
      || contains e.message (codes "SQLSTATE 40P01")

  -- `mysqlDialect`
  unfoldable pub mysql_dialect : Dialect
  unfolding quote_ident mysql_is_retryable_err
  mysql_dialect = record {
    name = name_mysql;
    quote_ident = λ ident. quote_ident ident b'`' b'`';
    like_operator = codes "LIKE";
    is_duplicate_key_err = has_number 1062;
    is_lock_no_wait_err = has_number 3572;
    is_retryable_err = mysql_is_retryable_err;
    migration_schema_dir = name_mysql;
  }

  -- `postgresDialect`
  unfoldable pub postgres_dialect : Dialect
  unfolding quote_ident code_or_message postgres_is_retryable_err
  postgres_dialect = record {
    name = name_postgres;
    quote_ident = λ ident. quote_ident ident b'"' b'"';
    like_operator = codes "ILIKE";
    is_duplicate_key_err = code_or_message (codes "23505") (codes "SQLSTATE 23505");
    is_lock_no_wait_err = code_or_message (codes "55P03") (codes "SQLSTATE 55P03");
    is_retryable_err = postgres_is_retryable_err;
    migration_schema_dir = name_postgres;
  }
