-- ===== src/Lib.antt =====
-- A model of goth-scaffold, a scaffold for HTTP services in Go.
--
-- The parts and how they interact. A request carries a filter and a list of sort fields. The
-- package queryfilter parses both, checks them against a schema of fields, and splits the work: a
-- scope on the GORM query with what the database can do, and a pass over the rows that come back
-- with the rest. The SQL text depends on the dialect, MySQL or PostgreSQL, which the package dialect
-- picks from the connection and keeps. The package crypto encrypts the primary keys that the
-- service shows, under keys that it derives once and caches. Repositories run transactions that are
-- tried again after a deadlock, save entities between their hooks, and answer the queries by which
-- models load their associations, on first access or ahead for many records. Workers run tasks by
-- their handlers; those on several hosts share a lock in Redis.
--
-- The files, with the Go files that they model.
-- - Queryfilter/Syntax, Lexer and Parser: app/components/queryfilter/op.go, node.go and parser.go.
--   A string is the list of its runes. `lexer.next` is `next`; each case of its switch is a function
--   `next_…`. The four functions of the recursive descent are `parse_or`, `parse_and`,
--   `parse_primary` and `parse_comparison`; the two `for` loops are `or_loop` and `and_loop`.
--   Parser/Grammar is an independent description: a grammar on token lists.
-- - Queryfilter/Sort: sort.go. Queryfilter/Schema: schema.go and the validation of option.go.
-- - Queryfilter/Conditions: the database side of option.go, `collectDBConds` to `buildGORMScope`.
-- - Queryfilter/Memory: the in-memory side of option.go, `ToOption`, and what it uses of
--   `DatabaseQueryOption` in app/models/helper_repository.go.
-- - Queryfilter/Semantics: what a filter means for one row, apart from how it is split.
-- - Dialect: app/components/dialect/mysql.go and postgres.go; Dialect/Registry: dialect.go.
-- - Crypto: app/components/crypto/crypto.go. Crypto/Bytes has the 64-bit numbers, Crypto/Ids the
--   encryption of ids.
-- - Repository: the queries with options of app/repositories/database_repository.go, `FindWhere` to
--   `GetByIDs`.
-- - Transactions: the retried transactions of app/repositories/database_repository.go. The loop of
--   `WithTransactionRetryContext` is `attempts`, structural in the passes that are left, its body
--   `attempt`, cut at its error tests into `after_begin`, `after_fn`, `before_commit` and
--   `after_commit`; `retry` is `_TransactionRetryAttempt._Retry`.
-- - Options: the options for pages and columns in app/models/helper_repository.go.
-- - Worker: the managers of app/worker/service.go that run a component on one host at a time. One
--   tick of a manager is one step, so no other host acts between two of its commands.
-- - Tasks: app/worker/internal/handler.go and the tasks of app/worker/service.go. `process` is
--   `_Process`; the state of the handlers, the clock and the result writer are one argument. Its
--   children hold the order of the stages, the result of a task, and `Submit` with its options.
-- - Saving: `Save`, `Delete`, `_SaveWithRetry`, `UpsertTx` and `FirstOrCreateTx` of
--   app/repositories/database_repository.go. The retries go down the list of delays that are left.
-- - Lazy: the associations of app/models/helper_lazy.go. `eager_has_many`, `eager_belongs_to` and
--   `eager_has_many_composite` are the three batch loads, cut at their loops; a map is an association
--   list. Lazy/Scope: app/models/helper_lazy_scope.go and app/repositories/lazy_db_registry.go.
--   Lazy/Reload: `Reload`, in place, and `ReloadAll`. Lazy/Dispatch: `_AutoEagerLoadFiltered`, one field at a
--   time, and `LazyHasOne`.
-- - Models: what app/models/helper.go and helper_lazy.go read of tags, the check of lengths, the
--   columns in JSON, and primary keys, with `_CopyPrimaryKey` of the repository.
-- - Handlers: the language, the tokens, the answers and the messages of
--   app/handlers/endpoints/handlertask.go; Handlers/Auth: acceptances/check_basic_auth.go and
--   minortasks/decode_access_token.go of app/handlers.
-- - Cassandra: the options, the pages and the texts of the queries in app/models/helper_cassandra.go.
-- - Config: app/conf/configuration.go. Config/Struct has the fields of a struct as a tree, and a
--   `reflect.Value` as the place of a field in it; `load_from_env` is `_LoadFromEnv`.
-- - Helpers: app/helpers/validation.go, with its tables of country codes.
-- - Settings: app/models/site_settings.go and app/repositories/site_settings.go. A query is its
--   conditions and its order.
-- - Keyspace: the statements and the operations of app/repositories/cassandra_repository.go; its
--   children describe the columns and the clauses apart from the loops that write them.
-- - Http: the log of app/components/httpclient/httpclient.go. Remote: what
--   app/components/googleauth/googleauth.go and app/components/recaptcha/recaptcha.go make of an
--   answer.
-- - Daemons: the presets, the health check and the seeds of app/daemons and
--   app/database/seed/registry.go.
-- - Worker/Service, Worker/Lifecycle and Worker/Scheduled: the start and the stop of the client, the
--   servers and the scheduler in app/worker/service.go, with the calls of other code in a list.
-- - Lazy/Meta: the cache of parsed tags and the registry of queriers of app/models/helper_lazy.go.
--   Lazy/Loading: the options of app/models/helper_repository.go that load associations ahead.
-- - Tasks/Payloads: the tasks of app/worker/task.go, as handler.go reads their payloads.
-- - Prelude: texts, lists, results, integers and the number parsers of Go's strconv.
-- - Tests: runs of the model, and each result at a fixed input.
--
-- Fuel. The parser runs on fuel, 4 * n + 4 units for a text of n runes: each token takes at least
-- one rune, a call for a token is at most four deep, and a loop that goes on has read a token.
--
-- Parameters. Unicode's letter tables, `strconv.ParseFloat`, the callbacks of a schema, GORM with
-- its SQL, and AES, SHA-256 and base62 are arguments. Records say what the code relies on:
-- `Unicode`, `SqlMeaning`, `Rows`, `IsSound`, `IsCounted`, `Windows`, `Answers`, the `Reads` of
-- Lazy/BelongsTo/Laws, `ReadsTable`, `Keeps`, `IsJson`, `IsTimeHash`, `IsPageCodec`, `IsTable`,
-- `NamesDiffer`, `IsClock`, `IsWebSession`, `KeepsCapitals`, `Entries` and `TakesNew`.
-- A float is a value of a type that is an argument too.
--
-- Not modelled: locks (an operation is one step, but for the two steps of `getKey`), the texts of
-- error messages (an error is a constructor with what it prints), and the parts of the program that
-- set up frameworks or do I/O: connectors, the daemons themselves, routes and templates, the sending of
-- requests, and the command line. What the loads of associations read by reflection (the reference fields, the
-- caches and the keys of the children) is an argument of their definitions.
pub mod Prelude
pub mod Crypto
pub mod Options
pub mod Repository
pub mod Transactions
pub mod Saving
pub mod Worker
pub mod Tasks
pub mod Lazy
pub mod Models
pub mod Handlers
pub mod Cassandra
pub mod Config
pub mod Remote
pub mod Daemons
pub mod Settings
pub mod Http
pub mod Keyspace
pub mod Helpers
pub mod Dialect
pub mod Queryfilter
mod Tests
