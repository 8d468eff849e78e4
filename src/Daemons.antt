-- ===== src/Daemons.antt =====
-- app/daemons: the presets of daemons for each mode, the service that is made of one, the check of the
-- connections that runs every minute, and the daemons that migrate and seed the database; with
-- app/database/seed/registry.go, the seeds in their order.
pub mod Presets
pub mod Seeds
use goth_scaffold.Prelude.{
  ℕ, Text, codes, text_eq, is_empty, Bool, true, false, not, ◌&&◌, ◌||◌, if◌then◌else◌, List, [],
  ◌∷◌, ◌++◌, Option, none, some, Result, ok, err,
}

-- `daemonEntry`, by the name of the daemon's type
pub record DaemonEntry : Type 0 where
  pub daemon : Text
  pub order : ℕ

abbrev pub entry : Text → ℕ → DaemonEntry
entry daemon order = record { daemon = daemon; order = order }

-- What all presets begin with
abbrev pub setup_daemons : List DaemonEntry
setup_daemons =
    entry (codes "SetupEnvironment") 1
    ∷ entry (codes "SetupLogger") 2
    ∷ entry (codes "SetupStdoutCatch") 3
    ∷ entry (codes "SetupProfiler") 4
    ∷ entry (codes "SetupDatabase") 5
    ∷ entry (codes "SetupRedis") 6
    ∷ entry (codes "SetupHttpSession") 7
    ∷ entry (codes "SetupKeyspaces") 10
    ∷ []

abbrev pub default_preset : List DaemonEntry
default_preset =
    setup_daemons
    ++ (entry (codes "SchedulePerformanceMeasure") 22
        ∷ entry (codes "ActionDatabaseMigration") 91
        ∷ entry (codes "ActionStartAPI") 95
        ∷ entry (codes "ScheduleSelfHealthCheck") 100
        ∷ [])

abbrev pub api_preset : List DaemonEntry
api_preset =
    setup_daemons
    ++ (entry (codes "SetupWorker") 21
        ∷ entry (codes "SchedulePerformanceMeasure") 22
        ∷ entry (codes "ActionStartAPI") 95
        ∷ entry (codes "ScheduleSelfHealthCheck") 100
        ∷ [])

abbrev pub db_migration_preset : List DaemonEntry
db_migration_preset =
    setup_daemons
    ++ (entry (codes "ActionDatabaseMigration") 91 ∷ entry (codes "ActionShutdown") 9999 ∷ [])

abbrev pub db_seed_preset : List DaemonEntry
db_seed_preset =
    setup_daemons
    ++ (entry (codes "ActionDatabaseMigration") 91
        ∷ entry (codes "ActionDatabaseSeed") 92
        ∷ entry (codes "ActionShutdown") 9999
        ∷ [])

abbrev pub worker_preset : List DaemonEntry
worker_preset =
    setup_daemons
    ++ (entry (codes "SetupWorker") 21
        ∷ entry (codes "SchedulePerformanceMeasure") 22
        ∷ entry (codes "ActionStartWorker") 96
        ∷ entry (codes "ScheduleSelfHealthCheck") 100
        ∷ [])

-- The entries of `NewDaemonServiceForMode`
unfoldable pub entries_of_mode : Text → List DaemonEntry
unfolding text_eq
entries_of_mode mode =
    if text_eq mode (codes "api")
    then api_preset
    else if text_eq mode (codes "db_migration")
    then db_migration_preset
    else if text_eq mode (codes "db_seed")
    then db_seed_preset
    else if text_eq mode (codes "worker")
    then worker_preset
    else default_preset

module _ {S E : Type 0} (register_daemon : DaemonEntry → S → Option E × S) where
  abbrev pub unless_failed : Option E × S → (S → Result E S) → Result E S
  unless_failed (none, s) next = next s
  unless_failed (some e, s) next = err e

  -- The loop over the entries
  unfoldable pub register_entries : List DaemonEntry → S → Result E S
  register_entries [] s = ok s
  register_entries (e ∷ es) s = unless_failed (register_daemon e s) (register_entries es)

  -- `NewDaemonServiceForMode`, on the new service
  unfoldable pub new_daemon_service_for_mode : S → Text → Result E S
  unfolding register_entries entries_of_mode
  new_daemon_service_for_mode service mode = register_entries (entries_of_mode mode) service

-- A connection that the health check looks at
pub record MonitoredConnection : Type 0 where
  pub enabled : Bool
  pub healthy : Bool

-- The three tests of `ScheduleSelfHealthCheck.Loop`, in their order: whether the service is shut down and an error
-- returned
unfoldable pub health_check : List MonitoredConnection → Bool
health_check [] = false
health_check (c ∷ cs) =
    let rest = health_check cs in if c.enabled && not c.healthy then true else rest

unfoldable pub self_health_check :
    MonitoredConnection → MonitoredConnection → MonitoredConnection → Bool
unfolding health_check
self_health_check redis database keyspaces = health_check (redis ∷ database ∷ keyspaces ∷ [])
