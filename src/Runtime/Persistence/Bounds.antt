-- ===== src/Runtime/Persistence/Bounds.antt =====
-- Bounds on the pool of app/runtime/persistence.py, over all orders of its steps.
use arb_system.Base.{ℕ, ◌+◌, ◌≤◌, ◌≡◌, Bool, some, arith}
use arb_system.Runtime.Persistence.{Pool, new_pool, tasks, submit, run, on_done}

-- The pools that the steps lead to, in any order.
pub data Reach (max_inflight : ℕ) : Pool → Type 0 where
  fresh : Reach max_inflight (new_pool max_inflight)
  submitted : {p q : Pool} → Reach max_inflight p → submit p ≡ some q → Reach max_inflight q
  ran :
      {p q : Pool} (failed : Bool)
      → Reach max_inflight p
      → run failed p ≡ some q
      → Reach max_inflight q
  dropped : {p q : Pool} → Reach max_inflight p → on_done p ≡ some q → Reach max_inflight q

-- The slots are shared out among the running tasks, the high-water mark is one, and no write is lost
-- from the counts.
pub record IsBounded (max_inflight : ℕ) (p : Pool) : Type 0 where
  pub slots : p.free_slots + p.running ≡ max_inflight
  pub mark : tasks p ≤ p.high_water
  pub marked : p.high_water ≤ p.submitted_total
  pub failures : p.failed_total + p.running ≤ p.submitted_total

submit-IsBounded : (m : ℕ) (p q : Pool) → IsBounded m p → submit p ≡ some q → IsBounded m q
unfolding submit tasks
submit-IsBounded m p q v e = ground (arith, v.slots, v.mark, v.marked, v.failures)

run-IsBounded :
    (m : ℕ) (failed : Bool) (p q : Pool) → IsBounded m p → run failed p ≡ some q → IsBounded m q
unfolding run tasks
run-IsBounded m failed p q v e = ground (arith, v.slots, v.mark, v.marked, v.failures)

on_done-IsBounded : (m : ℕ) (p q : Pool) → IsBounded m p → on_done p ≡ some q → IsBounded m q
unfolding on_done tasks
on_done-IsBounded m p q v e = ground (arith, v.slots, v.mark, v.marked, v.failures)

-- In any order of submissions, ends and callbacks, the free slots and the running tasks make up
-- `max_inflight`, the tasks held never pass the high-water mark, which never passes the submissions, and
-- the failures and the running tasks together do not either.
pub Reach-IsBounded : {m : ℕ} {p : Pool} → Reach m p → IsBounded m p
unfolding tasks
Reach-IsBounded fresh = record {
  slots = omega arith;
  mark = omega arith;
  marked = omega arith;
  failures = omega arith;
}
Reach-IsBounded (submitted {p} {q} r e) = submit-IsBounded _ p q (Reach-IsBounded r) e
Reach-IsBounded (ran {p} {q} failed r e) = run-IsBounded _ failed p q (Reach-IsBounded r) e
Reach-IsBounded (dropped {p} {q} r e) = on_done-IsBounded _ p q (Reach-IsBounded r) e
