-- ===== src/Thread/Semaphore.antt =====
-- thrSemInit, thrSemDown and the count of thrSemUp in thread.c, under any interleaving of the
-- threads. thrSemDown takes no lock, and a thread that marks itself as sleeping goes on in its
-- `while`: neither gives the processor away.
pub mod Race
mod Tests
use orcas.Base.{ℕ, ◌+◌, ◌-◌, ◌^◌, ◌≡◌, ◌==◌, gt_int, if◌then◌else◌, u32}

-- `outside`, in the test of the `while`, in its body, before the decrement, and behind it.
pub data Pc : Type 0 where
  outside testing marking taking inside : Pc

pub record System : Type 0 where
  pub count : ℕ
  pub pc : ℕ → Pc

-- `count` is an `int`.
pub data Move (count : ℕ) : Pc → ℕ → Pc → Type 0 where
  call : Move count outside count testing
  test : Move count testing count (if gt_int count 0 then taking else marking)
  mark : Move count marking count testing
  take : Move count taking (u32 (count + (2 ^ 32 - 1))) inside
  up : Move count inside (u32 (count + 1)) outside

abbrev pub at : ℕ → Pc → (ℕ → Pc) → ℕ → Pc
at i p pc j = if j == i then p else pc j

pub data Step (s : System) : System → Type 0 where
  run :
      (i : ℕ) {q p : Pc} {count : ℕ}
      → s.pc i ≡ q
      → Move s.count q count p
      → Step s (record { count = count; pc = at i p s.pc })

pub data Later (s : System) : System → Type 0 where
  now : Later s s
  then_step : {t u : System} → Later s t → Step t u → Later s u

abbrev pub thr_sem_init : (val : ℕ) → System
thr_sem_init val = record { count = val; pc = λ _. outside }
