-- ===== src/Thread/Semaphore/Tests.antt =====
-- A semaphore of one unit, and threads 3 and 4.
use orcas.Base.{◌≡◌, refl, arith}
use orcas.Util.{minus_one}
use orcas.Thread.Semaphore.{
  outside, testing, inside, System, Later, now, then_step, run, call, thr_sem_init, at,
}
use orcas.Thread.Semaphore.Race.{sem_down-overdraws}

both_test :
    Later (thr_sem_init 1) (record { count = 1; pc = at 4 testing (at 3 testing (λ _. outside)) })
both_test = then_step (then_step now (run 3 refl call)) (run 4 refl call)

sem_down-overdraws_example :
    let pc = at 4 testing (at 3 testing (thr_sem_init 1).pc) in
    (t : System) × Later (record { count = 1; pc = pc }) t
    × (t.count ≡ minus_one)
    × (t.pc 3 ≡ inside)
    × (t.pc 4 ≡ inside)
sem_down-overdraws_example =
    sem_down-overdraws 3 4 (at 4 testing (at 3 testing (thr_sem_init 1).pc)) (omega arith) refl refl
