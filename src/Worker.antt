-- ===== src/Worker.antt =====
-- app/worker/service.go: the manager that runs a component on one host at a time, under a lock in
-- Redis. The hosts are named by their host names, which are taken to differ.
pub mod Exclusion
pub mod Takeover
pub mod Service
pub mod Scheduled
pub mod Lifecycle
use goth_scaffold.Prelude.{
  Text, text_eq, Bool, true, false, not, ◌||◌, ◌&&◌, if◌then◌else◌, List, [], ◌∷◌, Option, none,
  some, is_some,
}

-- The value of the lock's key, and whether the key has a time to live.
pub record Lock : Type 0 where
  pub holder : Text
  pub expires : Bool

-- Redis, and of each manager `acquired` and whether its runner is started.
pub record World : Type 0 where
  pub lock : Option Lock
  pub acquired : Text → Bool
  pub running : Text → Bool

abbrev pub no_lock : World
no_lock = record { lock = none; acquired = λ m. false; running = λ m. false }

-- How a command goes: it works, or it returns an error, not executed or executed all the same.
pub data Reply : Type 0 where
  works fails fails_late : Reply

-- How the commands of one step go, and whether the runner starts.
pub record Replies : Type 0 where
  pub setnx : Reply
  pub set_expire : Reply
  pub get : Reply
  pub delete : Reply
  pub starts : Bool

abbrev pub is_error : Reply → Bool
is_error works = false
is_error _ = true

abbrev pub is_executed : Reply → Bool
is_executed fails = false
is_executed _ = true

unfoldable pub assign : Text → Bool → (Text → Bool) → Text → Bool
unfolding text_eq
assign m b flags n = if text_eq m n then b else flags n

abbrev set_lock : Option Lock → World → World
set_lock l w = record w { lock = l }

abbrev hold : Text → Bool → Option Lock
hold m expires = some (record { holder = m; expires = expires })

-- `redis.Master().Delete(m.lockKey)`
abbrev delete_lock : Replies → World → World
delete_lock r w = if is_executed r.delete then set_lock none w else w

-- `m.acquired = false` and `m.runner.Shutdown()`
abbrev stop_runner : Text → World → World
unfolding assign
stop_runner m w = record w {
  acquired = assign m false w.acquired;
  running = assign m false w.running;
}

-- The end of `tryAcquire`: the lock is taken and expires.
abbrev start_runner : Replies → Text → World → World
start_runner r m w =
    if r.starts
    then record w { acquired = assign m true w.acquired; running = assign m true w.running }
    else delete_lock r (record w { acquired = assign m false (assign m true w.acquired) })

-- Behind a successful `SetNX`
abbrev set_expiry : Replies → Text → World → World
set_expiry r m w =
    let w' = if is_executed r.set_expire then set_lock (hold m true) w else w in
    if is_error r.set_expire then delete_lock r w' else start_runner r m w'

-- `tryAcquire`
unfoldable pub try_acquire : Replies → Text → World → World
try_acquire r m w =
    if is_some w.lock || not (is_executed r.setnx)
    then w
    else if is_error r.setnx
    then set_lock (hold m false) w
    else set_expiry r m (set_lock (hold m false) w)

abbrev pub is_held_by : Text → Option Lock → Bool
is_held_by m none = false
is_held_by m (some l) = text_eq l.holder m

-- `keepAlive`
unfoldable pub keep_alive : Replies → Text → World → World
unfolding text_eq assign
keep_alive r m w =
    let w' = if is_executed r.set_expire then set_lock (hold m true) w else w in
    if is_error r.get || not (is_held_by m w.lock)
    then stop_runner m w
    else if is_error r.set_expire
    then stop_runner m w'
    else w'

-- `release`
unfoldable pub release : Replies → Text → World → World
unfolding text_eq assign
release r m w =
    if not (w.acquired m)
    then w
    else stop_runner m (if not (is_error r.get) && is_held_by m w.lock then delete_lock r w else w)

-- What can happen: a tick of a manager, its stop, and the end of the lock's time to live.
pub data Event : Type 0 where
  tick stopped : Text → Replies → Event
  expiry : Event

abbrev pub expire_lock : Option Lock → Option Lock
expire_lock none = none
expire_lock (some l) = if l.expires then none else some l

-- A tick is the first try of `manage`, or the case of the ticker.
unfoldable pub step : Event → World → World
unfolding try_acquire keep_alive release
step (tick m r) w = if w.acquired m then keep_alive r m w else try_acquire r m w
step (stopped m r) w = release r m w
step expiry w = set_lock (expire_lock w.lock) w

unfoldable pub run : List Event → World → World
unfolding step
run [] w = w
run (e ∷ es) w = run es (step e w)
