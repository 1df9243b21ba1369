-- ===== src/Thread/Mutex.antt =====
-- The mutex of thread.c: thrMutexInit, thrMutexLock and thrMutexUnlock with thrCondWait and
-- thrCondBroadcast, under any interleaving of the threads. A step is one access to the mutex, to a
-- spinlock or to a status. `cli`, `sti` and the choice of the scheduler are left out: every running
-- or ready thread may take the next step. A thread that sleeps is inside thrSched, whose loop never
-- returns to it: made ready, it is switched to where it last yielded, not behind its thrSched. What
-- it does there is not modelled, so that the states are those up to that switch.
pub mod Owner
pub mod Safety
pub mod Deadlock
mod Tests
use orcas.Base.{ℕ, ◌≡◌, ◌==◌, Bool, true, false, if◌then◌else◌, ltb, ◌&&◌}
use orcas.Lock.{Spinlock, xchg, spinlock_init, spinlock_unlock}

-- `struct mutex`, and `thrque_lock`.
pub record Mutex : Type 0 where
  pub lock : ℕ
  pub lk : Spinlock
  pub que : Spinlock

abbrev pub thr_mutex_init : Mutex
thr_mutex_init = record { lock = 0; lk = spinlock_init; que = spinlock_init }

-- Where a thread stands: `entering` before `m->lk` is taken in thrMutexLock, `testing` in its
-- `while`; `queueing`, `letting`, `dozing`, `sleeping` and `woken` in thrCondWait; `setting` and
-- `leaving` behind the loop; `inside` with the mutex; `releasing`, `clearing`, `waking` and
-- `finishing` in thrMutexUnlock.
pub data Pc : Type 0 where
  outside entering testing queueing letting dozing sleeping woken : Pc
  setting leaving inside releasing clearing waking finishing : Pc

-- A turn of spinlockLock's loop.
abbrev pub after_turn : Spinlock → (got spin : Pc) → Pc
after_turn spl got spin = if (xchg 1 spl).0 == 0 then got else spin

pub data Move (m : Mutex) : Pc → Mutex → Pc → Type 0 where
  call : Move m outside m entering
  enter : Move m entering (record m { lk = (xchg 1 m.lk).1 }) (after_turn m.lk testing entering)
  test : Move m testing m (if m.lock == 1 then queueing else setting)
  queue : Move m queueing (record m { que = (xchg 1 m.que).1 }) (after_turn m.que letting queueing)
  let_go : Move m letting (record m { lk = spinlock_unlock m.lk }) dozing
  doze : Move m dozing m sleeping
  take_it : Move m setting (record m { lock = 1 }) leaving
  leave : Move m leaving (record m { lk = spinlock_unlock m.lk }) inside
  release : Move m inside m releasing
  regain : Move m releasing (record m { lk = (xchg 1 m.lk).1 }) (after_turn m.lk clearing releasing)
  clear : Move m clearing (record m { lock = 0 }) waking
  finish : Move m finishing (record m { lk = spinlock_unlock m.lk }) outside

pub record System : Type 0 where
  pub mutex : Mutex
  pub pc : ℕ → Pc

abbrev pub at : ℕ → Pc → (ℕ → Pc) → ℕ → Pc
at i p pc j = if j == i then p else pc j

-- `thrCondBroadcast`: the sleepers among the entries 1 to 255 are made ready.
abbrev pub wake_one : Pc → Pc
wake_one sleeping = woken
wake_one p = p

abbrev pub wake_all : (ℕ → Pc) → ℕ → Pc
wake_all pc j = if ltb 0 j && ltb j 256 then wake_one (pc j) else pc j

pub data Step (s : System) : System → Type 0 where
  run :
      (i : ℕ) {m : Mutex} {p : Pc}
      → Move s.mutex (s.pc i) m p
      → Step s (record { mutex = m; pc = at i p s.pc })
  broadcast :
      (i : ℕ)
      → s.pc i ≡ waking
      → Step s (record { mutex = s.mutex; pc = at i finishing (wake_all s.pc) })

abbrev pub init : System
init = record { mutex = thr_mutex_init; pc = λ _. outside }

pub data Later (s : System) : System → Type 0 where
  now : Later s s
  then_step : {t u : System} → Later s t → Step t u → Later s u

-- Who is between taking `m->lk` and giving it back.
abbrev pub has_lk : Pc → Bool
has_lk testing = true
has_lk queueing = true
has_lk letting = true
has_lk setting = true
has_lk leaving = true
has_lk clearing = true
has_lk waking = true
has_lk finishing = true
has_lk _ = false

-- Who is between taking `thrque_lock` and giving it back.
abbrev pub has_que : Pc → Bool
has_que letting = true
has_que dozing = true
has_que sleeping = true
has_que woken = true
has_que _ = false

-- Who is between setting `m->lock` and clearing it.
abbrev pub owns : Pc → Bool
owns leaving = true
owns inside = true
owns releasing = true
owns clearing = true
owns _ = false

abbrev pub is_setting : Pc → Bool
is_setting setting = true
is_setting _ = false
