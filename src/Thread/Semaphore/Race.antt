-- ===== src/Thread/Semaphore/Race.antt =====
-- Two threads in thrSemDown at once.
use orcas.Base.{ℕ, ◌≡◌, ◌≢◌, refl, arith}
use orcas.Util.{minus_one}
use orcas.Thread.Semaphore.{
  Pc, testing, taking, inside, System, test, take, run, Later, now, then_step, at,
}

-- With one unit left and two threads in the test of thrSemDown, both can get behind it, and the
-- count is then -1: the test and the decrement are not one step.
pub sem_down-overdraws :
    (i j : ℕ) (pc : ℕ → Pc)
    → i ≢ j
    → pc i ≡ testing
    → pc j ≡ testing
    → (t : System) × Later (record { count = 1; pc = pc }) t
      × (t.count ≡ minus_one)
      × (t.pc i ≡ inside)
      × (t.pc j ≡ inside)
sem_down-overdraws i j pc ne ti tj =
    let first : at i taking pc j ≡ testing = ground (arith, tj, ne) in
    let second : at j taking (at i taking pc) i ≡ taking = ground (arith, ne) in
    let third : at i inside (at j taking (at i taking pc)) j ≡ taking = ground (arith, ne) in
    (
      record { count = minus_one; pc = at j inside (at i inside (at j taking (at i taking pc))) },
      then_step
          (then_step (then_step (then_step now (run i ti test)) (run j first test))
            (run i second take))
          (run j third take),
      refl,
      ground (arith, ne),
      ground arith,
    )
