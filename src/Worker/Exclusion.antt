-- ===== src/Worker/Exclusion.antt =====
-- app/worker/service.go: which managers run, over every sequence of events.
use goth_scaffold.Prelude.{
  ◌≡◌, refl, sym, ◌∙◌, text_eq_refl, Text, text_eq_iff, Bool, true, false, List, [], ◌∷◌, all,
  Option, none, some, arith,
}
use goth_scaffold.Worker.{
  Lock, World, no_lock, works, fails, Replies, assign, try_acquire, is_held_by, keep_alive, release,
  Event, tick, stopped, expiry, step, run,
}

abbrev pub is_no_expiry : Event → Bool
is_no_expiry expiry = false
is_no_expiry _ = true

-- Whoever has acquired the lock holds it.
abbrev IsHeld : World → Type 0
IsHeld w = (m : Text) → w.acquired m ≡ true → is_held_by m w.lock ≡ true

is_held_by_unique :
    (l : Option Lock) (a b : Text) → is_held_by a l ≡ true → is_held_by b l ≡ true → a ≡ b
is_held_by_unique none a b h k = absurd (cc h)
is_held_by_unique (some l) a b h k =
    sym ((text_eq_iff l.holder a).0 h) ∙ (text_eq_iff l.holder b).0 k

step-IsHeld : (e : Event) (w : World) → is_no_expiry e ≡ true → IsHeld w → IsHeld (step e w)
unfolding step try_acquire keep_alive release assign
step-IsHeld (tick m r) w h held n =
    ground (arith, held n, held m, text_eq_iff m n, text_eq_refl m, is_held_by_unique w.lock m n)
step-IsHeld (stopped m r) w h held n =
    ground (arith, held n, held m, text_eq_iff m n, text_eq_refl m, is_held_by_unique w.lock m n)
step-IsHeld expiry w h held n = absurd (ground arith)

in_step :
    (e : Event) (w : World) (n : Text)
    → w.running n ≡ w.acquired n
    → (step e w).running n ≡ (step e w).acquired n
unfolding step try_acquire keep_alive release assign
in_step (tick m r) w n h = ground (arith, text_eq_iff m n)
in_step (stopped m r) w n h = ground arith
in_step expiry w n h = ground arith

run-IsHeld :
    (es : List Event) (w : World) → all is_no_expiry es ≡ true → IsHeld w → IsHeld (run es w)
unfolding run
run-IsHeld [] w h held = held
run-IsHeld (e ∷ es) w h held =
    run-IsHeld es (step e w) (ground arith) (step-IsHeld e w (ground arith) held)

-- As long as the lock's time to live does not end, whatever commands of Redis fail and whatever
-- runners fail to start, at most one manager has acquired the lock, over every sequence of ticks
-- and stops of all managers.
pub run-excludes :
    (es : List Event) (a b : Text)
    → all is_no_expiry es ≡ true
    → (run es no_lock).acquired a ≡ true
    → (run es no_lock).acquired b ≡ true
    → a ≡ b
run-excludes es a b h k l =
    let held : IsHeld (run es no_lock) = run-IsHeld es no_lock h (λ m e. absurd (cc e)) in
    is_held_by_unique (run es no_lock).lock a b (held a k) (held b l)

run-in_step :
    (es : List Event) (w : World) (n : Text)
    → w.running n ≡ w.acquired n
    → (run es w).running n ≡ (run es w).acquired n
unfolding run
run-in_step [] w n h = h
run-in_step (e ∷ es) w n h = run-in_step es (step e w) n (in_step e w n h)

-- Also where the time to live ends: over every sequence of events a manager's runner is started
-- exactly if the manager has acquired the lock, and a manager that has it behind its own tick holds
-- the lock at that moment.
pub run-tick :
    (es : List Event) (m : Text) (r : Replies)
    → let w = run es no_lock in
      (w.running m ≡ w.acquired m)
      × ((step (tick m r) w).acquired m ≡ true → is_held_by m (step (tick m r) w).lock ≡ true)
unfolding step try_acquire keep_alive assign
run-tick es m r = (run-in_step es no_lock m refl, λ h. ground (arith, text_eq_refl m))

-- A lock with no time to live, and no manager that has acquired it.
abbrev IsStuck : Text → World → Type 0
IsStuck m w =
    (w.lock ≡ some (record { holder = m; expires = false })) × ((n : Text) → w.acquired n ≡ false)

step-IsStuck : (e : Event) (m : Text) (w : World) → IsStuck m w → IsStuck m (step e w)
unfolding step try_acquire release
step-IsStuck (tick n r) m w (l, h) = (ground (arith, h n), λ k. ground (arith, h n, h k))
step-IsStuck (stopped n r) m w (l, h) = (ground (arith, h n), λ k. ground (arith, h n, h k))
step-IsStuck expiry m w (l, h) = (ground arith, λ k. ground (arith, h k))

run-IsStuck : (es : List Event) (m : Text) (w : World) → IsStuck m w → IsStuck m (run es w)
unfolding run
run-IsStuck [] m w h = h
run-IsStuck (e ∷ es) m w h = run-IsStuck es m (step e w) (step-IsStuck e m w h)

-- If the first manager's `SetNX` works, its `SetExpire` is not executed and its `Delete` is not
-- either, then the lock stays for ever and no manager, this one included, ever acquires it.
pub unexpiring_lock :
    (es : List Event) (m n : Text) (r : Replies)
    → r.setnx ≡ works
    → r.set_expire ≡ fails
    → r.delete ≡ fails
    → let w = run es (step (tick m r) no_lock) in
      (is_held_by m w.lock ≡ true) × (w.acquired n ≡ false)
unfolding step try_acquire
unexpiring_lock es m n r e f g =
    let start : IsStuck m (step (tick m r) no_lock) = (ground arith, λ k. ground arith) in
    let (l, h) = run-IsStuck es m (step (tick m r) no_lock) start in
    (ground (arith, text_eq_refl m), h n)
