-- ===== src/Thread/Table.antt =====
-- Which entry `thrAlloc` takes, and what `thrCreate` leaves.
use orcas.Base.{
  ℕ, zero, suc, ◌+◌, ◌≤◌, ◌<◌, ◌≡◌, ◌⊎◌, refl, true, false, ◌==◌, if◌then◌else◌, arith, Option,
  none, some, Bool-cases, inl, inr,
}
use native.Mathlib.Decide.{ℕ_discrete}
use orcas.Thread.{
  Threads, ready, is_free, alloc_loop, thr_alloc, thr_create, Symbols, put, prepare, thr_que_size,
  default_counter,
}

-- No entry from `lo` up to `hi` is free.
abbrev pub AllTaken : (lo hi : ℕ) → Threads → Type 0
AllTaken lo hi threads = (j : ℕ) → lo ≤ j → j < hi → is_free (threads j).status ≡ false

-- The outcome is the first free entry from `lo` up to `hi`, or `none` if there is none.
data FirstFree (lo hi : ℕ) (threads : Threads) : Option ℕ → Type 0 where
  found :
      {i : ℕ}
      → lo ≤ i
      → i < hi
      → is_free (threads i).status ≡ true
      → AllTaken lo i threads
      → FirstFree lo hi threads (some i)
  full : AllTaken lo hi threads → FirstFree lo hi threads none

FirstFree-step :
    (lo hi : ℕ) (threads : Threads) {out : Option ℕ}
    → is_free (threads lo).status ≡ false
    → FirstFree (lo + 1) hi threads out
    → FirstFree lo hi threads out
FirstFree-step lo hi threads taken (found {i} a b c d) =
    found (omega arith) b c
      (λ j p q. elim (ℕ_discrete lo j) [ yes e ↦ rw (← e) taken | no ne ↦ d j (omega arith) q ])
FirstFree-step lo hi threads taken (full d) =
    full (λ j p q. elim (ℕ_discrete lo j) [ yes e ↦ rw (← e) taken | no ne ↦ d j (omega arith) q ])

alloc_loop-FirstFree :
    (left lo hi : ℕ) (threads : Threads)
    → lo + left ≡ hi
    → FirstFree lo hi threads (alloc_loop left lo threads)
unfolding alloc_loop
alloc_loop-FirstFree zero lo hi threads e = full (λ j p q. absurd (omega arith))
alloc_loop-FirstFree (suc left) lo hi threads e = elim (Bool-cases (is_free (threads lo).status)) [
  | inl free ↦
      rw (free, alloc_loop) (found (omega arith) (omega arith) free (λ j p q. absurd (omega arith)))
  | inr taken ↦
      rw (taken, alloc_loop)
        (FirstFree-step lo hi threads taken
          (alloc_loop-FirstFree left (lo + 1) hi threads (omega arith)))
]

-- `thrAlloc` takes the first of the 256 entries that is unused or stopped, and fails exactly if
-- none is.
thr_alloc-FirstFree : (threads : Threads) → FirstFree 0 thr_que_size threads (thr_alloc threads)
unfolding thr_alloc
thr_alloc-FirstFree threads = alloc_loop-FirstFree 256 0 256 threads (omega arith)

-- With each entry's tid its index, as `thrInit` leaves them, `thrCreate` either finds all 256
-- entries taken, and returns -1 and changes nothing, or returns the index of the first free one,
-- which is then ready with a full time slice; every other entry stays as it was.
pub thr_create-entry :
    (sym : Symbols) (func args : ℕ) (threads : Threads)
    → ((j : ℕ) → (threads j).tid ≡ j)
    → let (tid, after) = thr_create sym func args threads in
      (AllTaken 0 thr_que_size threads × (tid ≡ 0xffffffff) × (after ≡ threads))
      ⊎ ((tid < thr_que_size)
          × (is_free (threads tid).status ≡ true)
          × AllTaken 0 tid threads
          × ((after tid).status ≡ ready)
          × ((after tid).counter ≡ default_counter)
          × ((after tid).tid ≡ tid)
          × ((j : ℕ) → after j ≡ (if j == tid then after j else threads j)))
unfolding thr_create
thr_create-entry sym func args threads tids = go (thr_alloc threads) (thr_alloc-FirstFree threads)
  where
    out : Option ℕ → ℕ × Threads
    out o = elim o [
      | none ↦ (0xffffffff, threads)
      | some i ↦ ((threads i).tid, put i (prepare sym func args (threads i)) threads)
    ]

    go :
        (o : Option ℕ)
        → FirstFree 0 thr_que_size threads o
        → let (tid, after) = out o in
          (AllTaken 0 thr_que_size threads × (tid ≡ 0xffffffff) × (after ≡ threads))
          ⊎ ((tid < thr_que_size)
              × (is_free (threads tid).status ≡ true)
              × AllTaken 0 tid threads
              × ((after tid).status ≡ ready)
              × ((after tid).counter ≡ default_counter)
              × ((after tid).tid ≡ tid)
              × ((j : ℕ) → after j ≡ (if j == tid then after j else threads j)))
    go (some i) (found lo hi free before) = rw (tids i) (
        inr
          (hi, free, before, ground arith, ground arith, ground (arith, tids i), λ j. ground arith))
    go none (full all) = inl (all, refl, refl)
