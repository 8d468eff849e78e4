-- ===== src/Config/Sharing.antt =====
-- app/conf/configuration.go: `Config` in many goroutines at once, by the steps that others can see. The test of
-- `configInstance` and its return are one step, and what is written by `_Init` is seen at its end.
use goth_scaffold.Prelude.{Bool, true, false, List, [], ◌∷◌, Option, none, some, ◌≡◌, refl, All}

-- The configuration that `configInstance` points to: new, or filled by `_Init`
pub data Phase : Type 0 where
  unready ready : Phase

-- `configInstance`, and whether a goroutine that has set it holds the lock
pub record Shared : Type 0 where
  pub instance_now : Option Phase
  pub filling : Bool

-- A goroutine makes the first test, gets the lock and makes the second, or ends `_Init`; and `Reload`.
pub data ConfigStep : Type 0 where
  read_step enter_step finish_step reload_step : ConfigStep

abbrev pub read_shared : Option Phase → Shared → Option (Option Phase) × Shared
read_shared none s = (none, s)
read_shared (some p) s = (some (some p), s)

abbrev pub enter_shared : Bool → Option Phase → Shared → Option (Option Phase) × Shared
enter_shared true p s = (none, s)
enter_shared false none s = (none, record { instance_now = some unready; filling = true })
enter_shared false (some p) s = (some (some p), s)

abbrev pub finish_shared : Bool → Option Phase → Shared → Option (Option Phase) × Shared
finish_shared false p s = (none, s)
finish_shared true none s = (some none, record { instance_now = none; filling = false })
finish_shared true (some p) s =
    (some (some ready), record { instance_now = some ready; filling = false })

-- What the call of `Config` returns whose step this is, where it returns, and the state
unfoldable pub config_step : ConfigStep → Shared → Option (Option Phase) × Shared
config_step read_step s = read_shared s.instance_now s
config_step enter_step s = enter_shared s.filling s.instance_now s
config_step finish_step s = finish_shared s.filling s.instance_now s
config_step reload_step s = (none, record s { instance_now = none })

abbrev pub add_return : Option (Option Phase) → List (Option Phase) → List (Option Phase)
add_return none rs = rs
add_return (some r) rs = r ∷ rs

-- What the calls return, in their order
unfoldable pub returned : List ConfigStep → Shared → List (Option Phase)
unfolding config_step
returned [] s = []
returned (e ∷ es) s = add_return (config_step e s).0 (returned es (config_step e s).1)

abbrev pub is_call : ConfigStep → Bool
is_call reload_step = false
is_call e = true

abbrev pub at_start : Shared
at_start = record { instance_now = none; filling = false }

abbrev while_filling : Shared
while_filling = record { instance_now = some unready; filling = true }

abbrev pub when_ready : Shared
when_ready = record { instance_now = some ready; filling = false }

-- Every call returns a configuration, and all do a filled one once one has.
abbrev pub Settles : List (Option Phase) → Type 0
Settles [] = Unit
Settles (none ∷ rs) = ⊥
Settles (some unready ∷ rs) = Settles rs
Settles (some ready ∷ rs) = All (λ r. r ≡ some ready) rs

returned-when_ready :
    (es : List ConfigStep)
    → All (λ e. is_call e ≡ true) es
    → All (λ r. r ≡ some ready) (returned es when_ready)
unfolding returned config_step
returned-when_ready [] h = tt
returned-when_ready (read_step ∷ es) (h, hs) = (refl, returned-when_ready es hs)
returned-when_ready (enter_step ∷ es) (h, hs) = (refl, returned-when_ready es hs)
returned-when_ready (finish_step ∷ es) (h, hs) = returned-when_ready es hs
returned-when_ready (reload_step ∷ es) (h, hs) = absurd (cc h)

returned-while_filling :
    (es : List ConfigStep) → All (λ e. is_call e ≡ true) es → Settles (returned es while_filling)
unfolding returned config_step
returned-while_filling [] h = tt
returned-while_filling (read_step ∷ es) (h, hs) = returned-while_filling es hs
returned-while_filling (enter_step ∷ es) (h, hs) = returned-while_filling es hs
returned-while_filling (finish_step ∷ es) (h, hs) = returned-when_ready es hs
returned-while_filling (reload_step ∷ es) (h, hs) = absurd (cc h)

-- Over every sequence of steps of goroutines that call Config, where none calls Reload, every
-- call returns a configuration, and once one has returned a configuration that is filled from the
-- file and the environment, every later one does.
pub returned-Settles :
    (es : List ConfigStep) → All (λ e. is_call e ≡ true) es → Settles (returned es at_start)
unfolding returned config_step
returned-Settles [] h = tt
returned-Settles (read_step ∷ es) (h, hs) = returned-Settles es hs
returned-Settles (enter_step ∷ es) (h, hs) = returned-while_filling es hs
returned-Settles (finish_step ∷ es) (h, hs) = returned-Settles es hs
returned-Settles (reload_step ∷ es) (h, hs) = absurd (cc h)
