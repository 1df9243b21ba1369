-- ===== src/Thread/Wake.antt =====
-- Which threads the wake-ups of thread.c make ready.
use native.Mathlib.Decide.{ℕ_discrete}
use orcas.Base.{
  ℕ, zero, suc, ◌+◌, ◌%◌, ◌^◌, ◌≤◌, ◌<◌, ◌≡◌, ◌⊎◌, ◌∙◌, refl, true, false, ◌&&◌, ltb, leb,
  if◌then◌else◌, arith, Bool-cases, inl, inr,
}
use orcas.Thread.{
  Thread, Threads, ready, waits_on, signal_loop, broadcast_loop, wake_loop, thr_cond_signal,
  thr_cond_broadcast, thr_sem_up, put, thr_que_size,
}

-- `i` is the first index from `lo` up to `hi` whose thread waits on `cv`, and only it was woken.
pub record WakesFirst (lo hi cv : ℕ) (threads after : Threads) (i : ℕ) : Type 0 where
  pub from : lo ≤ i
  pub upto : i < hi
  pub waits : waits_on cv (threads i) ≡ true
  pub before : (j : ℕ) → lo ≤ j → j < i → waits_on cv (threads j) ≡ false
  pub woken : after ≡ put i (record (threads i) { status = ready }) threads

pub record WakesNone (lo hi cv : ℕ) (threads after : Threads) : Type 0 where
  pub none_waits : (j : ℕ) → lo ≤ j → j < hi → waits_on cv (threads j) ≡ false
  pub same : after ≡ threads

abbrev pub Signals : (lo hi cv : ℕ) → (threads after : Threads) → Type 0
Signals lo hi cv threads after =
    ((i : ℕ) × WakesFirst lo hi cv threads after i) ⊎ WakesNone lo hi cv threads after

module _ (left i cv : ℕ) (threads : Threads) where
  signal_loop-found :
      waits_on cv (threads i) ≡ true
      → signal_loop (suc left) i cv threads ≡ put i (record (threads i) { status = ready }) threads
  unfolding signal_loop
  signal_loop-found e = rw e refl

  signal_loop-next :
      waits_on cv (threads i) ≡ false
      → signal_loop (suc left) i cv threads ≡ signal_loop left (i + 1) cv threads
  unfolding signal_loop
  signal_loop-next e = rw e refl

later :
    (lo hi cv : ℕ) (threads after : Threads)
    → waits_on cv (threads lo) ≡ false
    → Signals (lo + 1) hi cv threads after
    → Signals lo hi cv threads after
later lo hi cv threads after no_wait (inl (i, w)) = inl (
  i,
  record {
    from = omega (arith, w.from);
    upto = w.upto;
    waits = w.waits;
    before = λ j p q. elim (ℕ_discrete lo j) [
      | yes e ↦ rw (← e) no_wait
      | no ne ↦ w.before j (omega arith) q
    ];
    woken = w.woken;
  },
)
later lo hi cv threads after no_wait (inr w) = inr (record {
  none_waits = λ j p q. elim (ℕ_discrete lo j) [
    | yes e ↦ rw (← e) no_wait
    | no ne ↦ w.none_waits j (omega arith) q
  ];
  same = w.same;
})

signal_loop-Signals :
    (left lo hi cv : ℕ) (threads : Threads)
    → lo + left ≡ hi
    → Signals lo hi cv threads (signal_loop left lo cv threads)
unfolding signal_loop
signal_loop-Signals zero lo hi cv threads e =
    inr (record { none_waits = λ j p q. absurd (omega arith); same = refl })
signal_loop-Signals (suc left) lo hi cv threads e = elim (Bool-cases (waits_on cv (threads lo))) [
  | inl waits ↦ inl (
    lo,
    record {
      from = omega arith;
      upto = omega arith;
      waits = waits;
      before = λ j p q. absurd (omega arith);
      woken = signal_loop-found left lo cv threads waits;
    },
  )
  | inr no_wait ↦ rw (signal_loop-next left lo cv threads no_wait) (
      later lo hi cv threads _ no_wait
        (signal_loop-Signals left (lo + 1) hi cv threads (omega arith)))
]

-- `thrCondSignal` makes ready the first thread of the entries 1 to 255 that sleeps on the
-- condition and changes nothing else; where none of these sleeps on it, it changes nothing.
pub thr_cond_signal-Signals :
    (cv : ℕ) (threads : Threads) → Signals 1 thr_que_size cv threads (thr_cond_signal cv threads)
unfolding thr_cond_signal
thr_cond_signal-Signals cv threads = signal_loop-Signals 255 1 256 cv threads (omega arith)

-- What a loop over the entries from `lo` up to `hi` leaves in entry `j` where it wakes all.
abbrev Wakes : (wake : Thread → Thread) (lo hi cv : ℕ) → (threads after : Threads) → Type 0
Wakes wake lo hi cv threads after =
    (j : ℕ)
    → after j
      ≡ (if leb lo j && ltb j hi && waits_on cv (threads j) then wake (threads j) else threads j)

broadcast_loop-Wakes :
    (left lo hi cv : ℕ) (threads : Threads)
    → lo + left ≡ hi
    → Wakes (λ t. record t { status = ready }) lo hi cv threads (broadcast_loop left lo cv threads)
unfolding broadcast_loop
broadcast_loop-Wakes zero lo hi cv threads e j = ground arith
broadcast_loop-Wakes (suc left) lo hi cv threads e j =
    broadcast_loop-Wakes left (lo + 1) hi cv _ (omega arith) j ∙ ground arith

wake_loop-Wakes :
    (left lo hi cv : ℕ) (threads : Threads)
    → lo + left ≡ hi
    → Wakes
        (λ t. record t { status = ready; cv = 0 })
        lo
        hi
        cv
        threads
        (wake_loop left lo cv threads)
unfolding wake_loop
wake_loop-Wakes zero lo hi cv threads e j = ground arith
wake_loop-Wakes (suc left) lo hi cv threads e j =
    wake_loop-Wakes left (lo + 1) hi cv _ (omega arith) j ∙ ground arith

-- `thrCondBroadcast` makes ready every thread of the entries 1 to 255 that sleeps on the condition
-- and leaves every other entry, entry 0 among them, as it was.
thr_cond_broadcast-Wakes :
    (cv : ℕ) (threads : Threads)
    → Wakes
        (λ t. record t { status = ready })
        1
        thr_que_size
        cv
        threads
        (thr_cond_broadcast cv threads)
unfolding thr_cond_broadcast
thr_cond_broadcast-Wakes cv threads = broadcast_loop-Wakes 255 1 256 cv threads (omega arith)

-- `thrSemUp` adds one to the count, wrapping at 32 bits, makes ready every thread that sleeps on
-- the semaphore, entry 0 among them, clears the condition it waited on, and leaves the others.
thr_sem_up-Wakes :
    (sem count : ℕ) (threads : Threads)
    → let (count', after) = thr_sem_up sem count threads in
      (count' ≡ (count + 1) % 2 ^ 32)
      × Wakes (λ t. record t { status = ready; cv = 0 }) 0 thr_que_size sem threads after
unfolding thr_sem_up
thr_sem_up-Wakes sem count threads = (refl, wake_loop-Wakes 256 0 256 sem threads (omega arith))
