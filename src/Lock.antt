-- ===== src/Lock.antt =====
-- concurrency.c: the spinlock, and threads that take and leave it in any order. `cli` and `sti`,
-- which stop the timer from taking the processor away, are left out: every interleaving is allowed.
pub mod Safety
mod Tests
use orcas.Base.{ℕ, ◌<◌, ◌≡◌, ◌==◌, Bool, true, false, if◌then◌else◌, not}

pub record Spinlock : Type 0 where
  pub lock : ℕ

-- The word that stood in the lock, and the lock with `val` in it.
abbrev pub xchg : (val : ℕ) → Spinlock → ℕ × Spinlock
xchg val spl = (spl.lock, record { lock = val })

abbrev pub spinlock_init : Spinlock
spinlock_init = record { lock = 0 }

abbrev pub spinlock_unlock : Spinlock → Spinlock
spinlock_unlock spl = record spl { lock = 0 }

-- Where a thread stands: outside, in the `while` of `spinlockLock`, or past it.
pub data Pc : Type 0 where
  outside spinning holding : Pc

abbrev pub holds : Pc → Bool
holds holding = true
holds _ = false

-- One turn of the `while`: `xchg` leaves 1 in the lock, and the thread goes on where it read 0.
abbrev pub spin_once : Spinlock → Pc × Spinlock
spin_once spl = let (old, spl') = xchg 1 spl in (if old == 0 then holding else spinning, spl')

-- A thread calls `spinlockLock`, takes a turn of its loop, or calls `spinlockUnlock`.
pub data Move (spl : Spinlock) : Pc → Spinlock → Pc → Type 0 where
  call : Move spl outside spl spinning
  turn : Move spl spinning (spin_once spl).1 (spin_once spl).0
  unlock : Move spl holding (spinlock_unlock spl) outside

pub record System : Type 0 where
  pub spl : Spinlock
  pub pc : ℕ → Pc

abbrev pub at : ℕ → Pc → (ℕ → Pc) → ℕ → Pc
at i p pc j = if j == i then p else pc j

pub data Step (s : System) : System → Type 0 where
  run :
      (i : ℕ) {spl : Spinlock} {p : Pc}
      → Move s.spl (s.pc i) spl p
      → Step s (record { spl = spl; pc = at i p s.pc })

abbrev pub init : System
init = record { spl = spinlock_init; pc = λ _. outside }

pub data Reach : System → Type 0 where
  start : Reach init
  later : {s t : System} → Reach s → Step s t → Reach t
