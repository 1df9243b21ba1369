-- ===== src/Thread/Mutex/Tests.antt =====
-- Three threads: 0 takes the mutex, 1 falls asleep for it, and 2 finds it taken.
use orcas.Base.{ℕ, ◌≡◌, refl}
use orcas.Lock.{xchg}
use orcas.Thread.Mutex.{
  sleeping, queueing, call, enter, test, queue, let_go, doze, take_it, leave, release, regain,
  System, run, Later, now, then_step, init, at, releasing,
}
use orcas.Thread.Mutex.Safety.{mutex_exclusion}
use orcas.Thread.Mutex.Deadlock.{deadlock}

locked : (s : System) × Later init s
locked = (
  _,
  then_step
      (then_step (then_step (then_step (then_step now (run 0 call)) (run 0 enter)) (run 0 test))
        (run 0 take_it))
      (run 0 leave),
)

jammed : (s : System) × Later locked.0 s
unfolding locked
jammed = (
  _,
  then_step
      (then_step
        (then_step
          (then_step
            (then_step
              (then_step
                (then_step (then_step (then_step now (run 1 call)) (run 1 enter)) (run 1 test))
                (run 1 queue))
              (run 1 let_go))
            (run 1 doze))
          (run 2 call))
        (run 2 enter))
      (run 2 test),
)

append : {s t u : System} → Later s t → Later t u → Later s u
append l now = l
append l (then_step m step) = then_step (append l m) step

mutex_exclusion_example : ◌≡◌ {A = ℕ} 0 0
unfolding locked
mutex_exclusion_example = mutex_exclusion {s = locked.0} 0 0 locked.1 refl refl

-- Thread 0 calls thrMutexUnlock, and takes one turn in vain.
abbrev released : System → System
released s = record {
  mutex = record s.mutex { lk = (xchg 1 s.mutex.lk).1 };
  pc = at 0 releasing (at 0 releasing s.pc);
}

in_vain : Later jammed.0 (released jammed.0)
unfolding jammed locked
in_vain = then_step (then_step now (run 0 release)) (run 0 regain)

deadlock_example :
    ((released jammed.0).pc 1 ≡ sleeping)
    × ((released jammed.0).pc 2 ≡ queueing)
    × ((released jammed.0).mutex.lk.lock ≡ 1)
unfolding jammed locked
deadlock_example =
    deadlock {s = jammed.0} {t = released jammed.0} 1 2 (append locked.1 jammed.1) refl refl in_vain
