-- ===== src/Worker/Takeover.antt =====
-- app/worker/service.go: a manager takes over a lock whose time to live has ended.
use goth_scaffold.Prelude.{◌≡◌, text_eq_refl, Text, Bool, true, [], ◌∷◌, Option, none, some, arith}
use goth_scaffold.Worker.{
  Lock, World, Replies, works, assign, is_held_by, try_acquire, keep_alive, tick, expiry, step, run,
}

abbrev pub may_expire : Option Lock → Bool
may_expire none = true
may_expire (some l) = l.expires

-- Every command works, and the runner starts.
pub record IsHealthy (r : Replies) : Type 0 where
  pub setnx : r.setnx ≡ works
  pub set_expire : r.set_expire ≡ works
  pub get : r.get ≡ works
  pub starts : r.starts ≡ true

-- Whoever holds the lock and whichever managers take themselves for its holder: if the lock has a
-- time to live, then after its end two ticks of one manager in a row, in which all commands work,
-- leave this manager running and with the lock.
pub run-takeover :
    (w : World) (m : Text) (r : Replies)
    → may_expire w.lock ≡ true
    → IsHealthy r
    → let w' = run (expiry ∷ tick m r ∷ tick m r ∷ []) w in
      (w'.running m ≡ true) × (w'.acquired m ≡ true) × (is_held_by m w'.lock ≡ true)
unfolding run step try_acquire keep_alive assign
run-takeover w m r h healthy =
    ground
      (arith, h, healthy.setnx, healthy.set_expire, healthy.get, healthy.starts, text_eq_refl m)
