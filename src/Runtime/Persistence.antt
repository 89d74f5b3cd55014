-- ===== src/Runtime/Persistence.antt =====
-- app/runtime/persistence.py, with the set of tasks as two counts: the tasks whose coroutine has not
-- ended, and those that have released their slot and wait for the callback that drops them. Between
-- two steps other tasks may run; cancellation is left out. Metrics are left out.
pub mod Bounds
use arb_system.Base.{ℕ, zero, suc, ◌+◌, Bool, true, false, Option, none, some, ltb, if◌then◌else◌}

pub record Pool : Type 0 where
  -- the free slots of the semaphore
  pub free_slots : ℕ
  pub running : ℕ
  pub ended : ℕ
  pub high_water : ℕ
  pub submitted_total : ℕ
  pub failed_total : ℕ

abbrev pub new_pool : ℕ → Pool
new_pool max_inflight = record {
  free_slots = max_inflight;
  running = 0;
  ended = 0;
  high_water = 0;
  submitted_total = 0;
  failed_total = 0;
}

-- `len(self._tasks)`
unfoldable pub tasks : Pool → ℕ
tasks p = p.running + p.ended

abbrev launched : ℕ → Pool → Pool
launched slots p =
    let n = suc p.running + p.ended in
    record p {
      free_slots = slots;
      running = suc p.running;
      submitted_total = p.submitted_total + 1;
      high_water = if ltb p.high_water n then n else p.high_water;
    }

abbrev take_slot : ℕ → Pool → Option Pool
take_slot zero p = none
take_slot (suc n) p = some (launched n p)

-- `submit`; `none` while it waits for a slot.
unfoldable pub submit : Pool → Option Pool
submit p = take_slot p.free_slots p

abbrev end_one : ℕ → Bool → Pool → Option Pool
end_one zero failed p = none
end_one (suc n) failed p = some (record p {
  free_slots = p.free_slots + 1;
  running = n;
  ended = p.ended + 1;
  failed_total = if failed then p.failed_total + 1 else p.failed_total;
})

-- `_run`, from where its coroutine ends or fails; `none` if no task is running.
unfoldable pub run : Bool → Pool → Option Pool
run failed p = end_one p.running failed p

abbrev drop_one : ℕ → Pool → Option Pool
drop_one zero p = none
drop_one (suc n) p = some (record p { ended = n })

-- `_on_done`; `none` if no task has ended.
unfoldable pub on_done : Pool → Option Pool
on_done p = drop_one p.ended p
