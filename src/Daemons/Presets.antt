-- ===== src/Daemons/Presets.antt =====
-- app/daemons/daemon_preset.go: the presets can be registered.
use goth_scaffold.Prelude.{
  ℕ, ◌==◌, Text, codes, text_eq, Bool, true, false, not, ◌&&◌, if_rule, List, [], ◌∷◌, any, Option,
  none, ok, ◌≡◌, refl, arith,
}
use goth_scaffold.Daemons.{
  DaemonEntry, entries_of_mode, register_entries, new_daemon_service_for_mode,
}

-- A service that takes a daemon whose order is not taken yet
pub record TakesNew {S E : Type 0} (register_daemon : DaemonEntry → S → Option E × S) : Type 0 where
  pub orders : S → List ℕ
  pub taken :
      (e : DaemonEntry) (s : S)
      → any (λ n. n == e.order) (orders s) ≡ false
      → (s' : S) × (register_daemon e s ≡ (none, s')) × (orders s' ≡ e.order ∷ orders s)

-- No order is among those before it.
abbrev distinct : List ℕ → List DaemonEntry → Bool
distinct seen [] = true
distinct seen (e ∷ es) = not (any (λ n. n == e.order) seen) && distinct (e.order ∷ seen) es

new_and_rest : (a b : Bool) → (not a && b) ≡ true → (a ≡ false) × (b ≡ true)
new_and_rest a b h = (ground arith, ground arith)

entries_of_mode-distinct : (mode : Text) → distinct [] (entries_of_mode mode) ≡ true
unfolding entries_of_mode
entries_of_mode-distinct mode =
    let P = λ (es : List DaemonEntry). distinct [] es ≡ true in
    if_rule P (text_eq mode (codes "api")) (λ h. refl)
      (λ h.
        if_rule P (text_eq mode (codes "db_migration")) (λ h. refl)
          (λ h.
            if_rule P (text_eq mode (codes "db_seed")) (λ h. refl)
              (λ h. if_rule P (text_eq mode (codes "worker")) (λ h. refl) (λ h. refl))))

module _ {S E : Type 0} (register_daemon : DaemonEntry → S → Option E × S)
    (takes : TakesNew register_daemon) where
  register_entries-ok :
      (es : List DaemonEntry) (s : S)
      → distinct (takes.orders s) es ≡ true
      → (s' : S) × (register_entries register_daemon es s ≡ ok s')
  unfolding register_entries
  register_entries-ok [] s h = (s, refl)
  register_entries-ok (e ∷ es) s h =
      let both =
        new_and_rest (any (λ n. n == e.order) (takes.orders s))
          (distinct (e.order ∷ takes.orders s) es) h in
      let (s1, registered, more) = takes.taken e s both.0 in
      let (s2, rest) = register_entries-ok es s1 (rw more both.1) in (s2, rw registered rest)

  -- On a new service every mode, known or not, gives a service.
  pub new_daemon_service_for_mode-ok :
      (service : S) (mode : Text)
      → takes.orders service ≡ []
      → (s : S) × (new_daemon_service_for_mode register_daemon service mode ≡ ok s)
  unfolding new_daemon_service_for_mode
  new_daemon_service_for_mode-ok service mode h =
      register_entries-ok (entries_of_mode mode) service (rw h (entries_of_mode-distinct mode))
