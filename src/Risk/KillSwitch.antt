-- ===== src/Risk/KillSwitch.antt =====
-- app/risk/kill_switch.py. The time of a change is an argument, in milliseconds.
use arb_system.Base.{ℕ, Bool, true, false, Text, Option, none, some}

pub record KillSwitch : Type 0 where
  pub on : Bool
  pub reason : Option Text
  pub since : ℕ

abbrev pub new_switch : Bool → ℕ → KillSwitch
new_switch initial now = record { on = initial; reason = none; since = now }

unfoldable pub turn_on : Text → ℕ → KillSwitch → KillSwitch
turn_on why now k = record { on = true; reason = some why; since = now }

unfoldable pub turn_off : Text → ℕ → KillSwitch → KillSwitch
turn_off why now k = record { on = false; reason = none; since = now }
