-- ===== src/Tests/Writes.antt =====
-- Steps of the background writer.
use arb_system.Base.{refl, true}
use arb_system.Runtime.Persistence.{Pool, submit, run}
use arb_system.Runtime.Persistence.Bounds.{Reach, fresh, submitted, ran, IsBounded, Reach-IsBounded}

-- One slot: a write starts and fails, its callback waits, and the next write starts.
abbrev one_running : Pool
one_running = record {
  free_slots = 0;
  running = 1;
  ended = 0;
  high_water = 1;
  submitted_total = 1;
  failed_total = 0;
}

abbrev one_ended : Pool
one_ended = record one_running { free_slots = 1; running = 0; ended = 1; failed_total = 1 }

abbrev two_held : Pool
two_held = record one_ended { free_slots = 0; running = 1; high_water = 2; submitted_total = 2 }

reached : Reach 1 two_held
unfolding submit run
reached = submitted {p = one_ended} (ran {p = one_running} true (submitted fresh refl) refl) refl

Reach-IsBounded_example : IsBounded 1 two_held
Reach-IsBounded_example = Reach-IsBounded reached
