-- ===== src/Lock/Tests.antt =====
-- Two threads: the first takes the spinlock, the second spins.
use orcas.Base.{ℕ, ◌≡◌, ◌⊎◌, refl, true}
use orcas.Lock.{holds, holding, call, turn, System, run, Reach, start, later, init, spin_once}
use orcas.Lock.Safety.{mutual_exclusion, no_lost_lock}

contended : (s : System) × Reach s
contended = (_, later (later (later start (run 0 call)) (run 1 call)) (run 0 turn))

mutual_exclusion_example : ◌≡◌ {A = ℕ} 0 0
mutual_exclusion_example =
    mutual_exclusion (later (later (later start (run 0 call)) (run 1 call)) (run 0 turn)) 0 0 refl
      refl

no_lost_lock_test :
    ((spin_once (record { lock = 0 })).0 ≡ holding) ⊎ ((j : ℕ) × (holds (init.pc j) ≡ true))
no_lost_lock_test = no_lost_lock start
