-- ===== src/Dialect/Registry.antt =====
-- dialect.go: the registered dialects and the cached choice.
use goth_scaffold.Prelude.{
  Text, Bool, true, false, if◌then◌else◌, text_eq, Option, none, some, ◌≡◌, arith,
}
use goth_scaffold.Queryfilter.Unicode.{Unicode}
use goth_scaffold.Dialect.{Dialect, name_mysql, name_postgres, mysql_dialect, postgres_dialect}

-- `registry` and `cachedDialect`. A nil `Dialect` is `none`.
pub record Registry : Type 0 where
  pub registered : Text → Option Dialect
  pub cached : Option Dialect

abbrev pub empty_registry : Registry
empty_registry = record { registered = λ n. none; cached = none }

-- The connection: `database.Enabled()`, and `database.Reader()` with the name of its `Dialector`.
pub data Reader : Type 0 where
  no_reader no_dialector : Reader
  dialector : Text → Reader

pub record Connection : Type 0 where
  pub enabled : Bool
  pub reader : Reader

-- `Register`
unfoldable pub register : Dialect → Registry → Registry
unfolding text_eq
register d r = record r { registered = λ n. if text_eq d.name n then some d else r.registered n }

-- `init` of the two files
unfoldable pub registry_at_start : Unicode → Registry
unfolding register mysql_dialect postgres_dialect
registry_at_start u = register (postgres_dialect u) (register (mysql_dialect u) empty_registry)

-- `if d, ok := …; ok { return d }`, and what comes behind it.
abbrev or_else : Option Dialect → Option Dialect → Option Dialect
or_else (some d) rest = some d
or_else none rest = rest

-- `fromGORM`
unfoldable pub from_gorm : Registry → Reader → Option Dialect
unfolding text_eq
from_gorm r no_reader = r.registered name_mysql
from_gorm r no_dialector = r.registered name_mysql
from_gorm r (dialector n) =
    if text_eq n name_postgres
    then or_else (r.registered name_postgres) (r.registered name_mysql)
    else if text_eq n name_mysql
    then or_else (r.registered name_mysql) (r.registered name_mysql)
    else r.registered name_mysql

abbrev is_no_reader : Reader → Bool
is_no_reader no_reader = true
is_no_reader _ = false

-- `resolveFromGORM`
unfoldable pub resolve_from_gorm : Registry → Connection → Option Dialect
unfolding from_gorm
resolve_from_gorm r c =
    let resolved = from_gorm r c.reader in
    let default = r.registered name_mysql in
    let behind = if is_no_reader c.reader then or_else default resolved else resolved in
    if c.enabled then behind else or_else default behind

-- `Current`: the cached dialect, else the resolved one, which is cached.
unfoldable pub current : Connection → Registry → Option Dialect × Registry
unfolding resolve_from_gorm
current c r = elim r.cached [
  | some d ↦ (some d, r)
  | none ↦ (resolve_from_gorm r c, record r { cached = resolve_from_gorm r c })
]

-- `ResetCache`
unfoldable pub reset_cache : Registry → Registry
reset_cache r = record r { cached = none }

-- Once `current` has found a dialect, it returns that one on every later connection, and writes
-- nothing, until the cache is reset; after a reset it resolves the connection that is then in use.
pub current-current :
    (c c' : Connection) (r : Registry) (d : Dialect)
    → (current c r).0 ≡ some d
    → (current c' (current c r).1 ≡ (some d, (current c r).1))
      × ((current c' (reset_cache (current c r).1)).0 ≡ resolve_from_gorm r c')
unfolding current reset_cache
current-current c c' r d h = ground arith

-- From the registry of the program's start, `current` is PostgreSQL on a connection whose dialector
-- says "postgres" while the database is enabled, and MySQL on every other connection.
pub current-registry_at_start :
    (u : Unicode) (c : Connection)
    → (current c (registry_at_start u)).0 ≡ elim c.reader [
      | dialector n ↦
          if c.enabled
          then (if text_eq n name_postgres
              then some (postgres_dialect u)
              else some (mysql_dialect u))
          else some (mysql_dialect u)
      | _ ↦ some (mysql_dialect u)
    ]
unfolding current registry_at_start
current-registry_at_start u c = ground arith
