-- ===== src/Thread/Sched.antt =====
-- Which thread `thrSched` runs next.
use native.Mathlib.Decide.{ℕ_discrete}
use orcas.Base.{
  ℕ, zero, suc, ◌+◌, ◌^◌, ◌≤◌, ◌<◌, ◌≡◌, ◌⊎◌, ◌∙◌, refl, ap, true, false, ◌==◌, ◌&&◌, ltb, gt_int,
  if◌then◌else◌, arith, Bool-cases, inl, inr, sym, ltb→lt, ltb_false→le,
}
use orcas.Thread.{Thread, Threads, running, is_ready, pick_loop, pick, thr_sched, thr_que_size}

-- A thread that could be chosen: ready, with a positive counter. Others have rank 0.
unfoldable pub rank : Thread → ℕ
rank t = if is_ready t.status && ltb t.counter (2 ^ 31) then t.counter else 0

abbrev AreInts : Threads → Type 0
AreInts threads = (j : ℕ) → (threads j).counter < 2 ^ 32

-- `i` has the highest rank from `lo` up to `hi`, above `maxp`, and is the first that has it.
pub record IsBest (lo hi maxp : ℕ) (threads : Threads) (i : ℕ) : Type 0 where
  pub from : lo ≤ i
  pub upto : i < hi
  pub above : maxp < rank (threads i)
  pub highest : (j : ℕ) → lo ≤ j → j < hi → rank (threads j) ≤ rank (threads i)
  pub first : (j : ℕ) → lo ≤ j → j < i → rank (threads j) < rank (threads i)

abbrev pub NoneAbove : (lo hi maxp : ℕ) → Threads → Type 0
NoneAbove lo hi maxp threads = (j : ℕ) → lo ≤ j → j < hi → rank (threads j) ≤ maxp

-- The choice among the threads from `lo` up to `hi`.
abbrev pub Choice : (lo hi maxp t : ℕ) → Threads → ℕ → Type 0
Choice lo hi maxp t threads out =
    IsBest lo hi maxp threads out ⊎ ((out ≡ t) × NoneAbove lo hi maxp threads)

better_iff :
    (t : Thread) (maxp : ℕ)
    → t.counter < 2 ^ 32
    → maxp < 2 ^ 31
    → (is_ready t.status && gt_int t.counter maxp) ≡ ltb maxp (rank t)
unfolding rank
better_iff t maxp h m = ground arith

module _ (lo hi maxp t : ℕ) (threads : Threads) where
  Choice-take :
      (out : ℕ)
      → lo < hi
      → maxp < rank (threads lo)
      → Choice (lo + 1) hi (rank (threads lo)) lo threads out
      → Choice lo hi maxp t threads out
  Choice-take out lt better (inl b) = inl (record {
    from = omega (arith, b.from);
    upto = b.upto;
    above = omega (arith, b.above);
    highest = λ j p q. elim (ℕ_discrete lo j) [
      | yes e ↦ rw (← e) (omega (arith, b.above))
      | no ne ↦ b.highest j (omega arith) q
    ];
    first = λ j p q. elim (ℕ_discrete lo j) [
      | yes e ↦ rw (← e) b.above
      | no ne ↦ b.first j (omega arith) q
    ];
  })
  Choice-take out lt better (inr (e, n)) = rw e (
      inl (record {
        from = omega arith;
        upto = lt;
        above = better;
        highest = λ j p q. elim (ℕ_discrete lo j) [
          | yes e' ↦ rw e' (omega arith)
          | no ne ↦ n j (omega arith) q
        ];
        first = λ j p q. absurd (omega arith);
      }))

  Choice-skip :
      (out : ℕ)
      → rank (threads lo) ≤ maxp
      → Choice (lo + 1) hi maxp t threads out
      → Choice lo hi maxp t threads out
  Choice-skip out small (inl b) = inl (record {
    from = omega (arith, b.from);
    upto = b.upto;
    above = b.above;
    highest = λ j p q. elim (ℕ_discrete lo j) [
      | yes e ↦ rw (← e) (omega (arith, b.above))
      | no ne ↦ b.highest j (omega arith) q
    ];
    first = λ j p q. elim (ℕ_discrete lo j) [
      | yes e ↦ rw (← e) (omega (arith, b.above))
      | no ne ↦ b.first j (omega arith) q
    ];
  })
  Choice-skip out small (inr (e, n)) = inr (
    e,
    λ j p q. elim (ℕ_discrete lo j) [ yes e' ↦ rw (← e') small | no ne ↦ n j (omega arith) q ],
  )

rank-lt : (t : Thread) → rank t < 2 ^ 31
unfolding rank
rank-lt t = ground arith

rank-counter : (t : Thread) → 0 < rank t → rank t ≡ t.counter
unfolding rank
rank-counter t h = ground arith

module _ (left i maxp t : ℕ) (threads : Threads) where
  pick_loop-take :
      (c : ℕ)
      → (is_ready (threads i).status && gt_int (threads i).counter maxp) ≡ true
      → (threads i).counter ≡ c
      → pick_loop (suc left) i maxp t threads ≡ pick_loop left (i + 1) c i threads
  unfolding pick_loop
  pick_loop-take c better same = rw better (ap (λ c. pick_loop left (i + 1) c i threads) same)

  pick_loop-skip :
      (is_ready (threads i).status && gt_int (threads i).counter maxp) ≡ false
      → pick_loop (suc left) i maxp t threads ≡ pick_loop left (i + 1) maxp t threads
  unfolding pick_loop
  pick_loop-skip worse = rw worse refl

pick_loop-Choice :
    (left lo hi maxp t : ℕ) (threads : Threads)
    → lo + left ≡ hi
    → AreInts threads
    → maxp < 2 ^ 31
    → Choice lo hi maxp t threads (pick_loop left lo maxp t threads)
unfolding pick_loop
pick_loop-Choice zero lo hi maxp t threads e ints m = inr (refl, λ j p q. absurd (omega arith))
pick_loop-Choice (suc left) lo hi maxp t threads e ints m =
    let iff = better_iff (threads lo) maxp (ints lo) m in
    elim (Bool-cases (ltb maxp (rank (threads lo)))) [
      | inl better ↦
          let lt : maxp < rank (threads lo) = ltb→lt maxp (rank (threads lo)) better in
          let same : (threads lo).counter ≡ rank (threads lo) =
            sym (rank-counter (threads lo) (omega arith)) in
          rw (pick_loop-take left lo maxp t threads _ (iff ∙ better) same) (
            Choice-take lo hi maxp t threads _ (omega arith) lt (
              pick_loop-Choice left (lo + 1) hi (rank (threads lo)) lo threads (omega arith) ints
                (rank-lt (threads lo))))
      | inr worse ↦
          let small : rank (threads lo) ≤ maxp = ltb_false→le maxp (rank (threads lo)) worse in
          rw (pick_loop-skip left lo maxp t threads (iff ∙ worse)) (
            Choice-skip lo hi maxp t threads _ small
              (pick_loop-Choice left (lo + 1) hi maxp t threads (omega arith) ints m))
    ]

-- `thrSched` runs, of the ready threads with a positive counter, the first with the highest
-- counter, and marks it running; where there is none it runs again whatever thread its variable
-- held before, ready or not. No other entry changes.
pub thr_sched-Choice :
    (t : ℕ) (threads : Threads)
    → AreInts threads
    → let (next, after) = thr_sched t threads in
      Choice 0 thr_que_size 0 t threads next
      × ((j : ℕ)
          → after j ≡ (if j == next then record (threads next) { status = running } else threads j))
unfolding thr_sched pick
thr_sched-Choice t threads ints =
    (pick_loop-Choice 256 0 256 0 t threads (omega arith) ints (omega arith), λ j. refl)

-- Where every ready thread has used up its counter, the scheduler revives the thread that it ran
-- last, even one that has exited.
pub thr_sched-revives :
    (t : ℕ) (threads : Threads)
    → AreInts threads
    → NoneAbove 0 thr_que_size 0 threads
    → let (next, after) = thr_sched t threads in (next ≡ t) × ((after next).status ≡ running)
unfolding thr_sched pick
thr_sched-revives t threads ints used =
    elim (pick_loop-Choice 256 0 256 0 t threads (omega arith) ints (omega arith)) [
      | inl b ↦ absurd (omega (arith, b.above, used _ b.from b.upto))
      | inr same ↦ (same.0, rw same.0 (ground arith))
    ]
