-- ===== src/Thread/Mutex/Deadlock.antt =====
-- thrCondWait sleeps with `thrque_lock` taken, and a second waiter waits for that with `m->lk` taken.
use native.Mathlib.Decide.{ℕ_discrete}
use orcas.Base.{ℕ, ◌≡◌, refl, Bool, true, false, arith}
use orcas.Thread.Mutex.{
  Mutex, Pc, sleeping, queueing, Move, call, enter, test, queue, let_go, doze, take_it, leave,
  release, regain, clear, finish, System, Step, run, broadcast, Later, now, then_step, init, has_lk,
  has_que,
}
use orcas.Thread.Mutex.Owner.{unique, shut}
use orcas.Thread.Mutex.Safety.{Inv, Step-Inv, Later-Inv, init-Inv}

abbrev is_asleep : Pc → Bool
is_asleep sleeping = true
is_asleep _ = false

abbrev is_queueing : Pc → Bool
is_queueing queueing = true
is_queueing _ = false

-- A sleeper makes no move.
asleep : {m after : Mutex} {q p : Pc} → Move m q after p → is_asleep q ≡ false
asleep call = refl
asleep enter = refl
asleep test = refl
asleep queue = refl
asleep let_go = refl
asleep doze = refl
asleep take_it = refl
asleep leave = refl
asleep release = refl
asleep regain = refl
asleep clear = refl
asleep finish = refl

-- While `thrque_lock` is taken, a thread that waits for it does nothing else.
still_queueing :
    {m after : Mutex} {q p : Pc}
    → Move m q after p
    → m.que.lock ≡ 1
    → is_queueing q ≡ true
    → p ≡ queueing
still_queueing queue w h = rw w refl
still_queueing call w h = absurd (ground arith)
still_queueing enter w h = absurd (ground arith)
still_queueing test w h = absurd (ground arith)
still_queueing let_go w h = absurd (ground arith)
still_queueing doze w h = absurd (ground arith)
still_queueing take_it w h = absurd (ground arith)
still_queueing leave w h = absurd (ground arith)
still_queueing release w h = absurd (ground arith)
still_queueing regain w h = absurd (ground arith)
still_queueing clear w h = absurd (ground arith)
still_queueing finish w h = absurd (ground arith)

-- `j` sleeps, and `k` waits for `thrque_lock`.
record IsStuck (j k : ℕ) (s : System) : Type 0 where
  pub inv : Inv s.mutex s.pc
  pub asleep_at : s.pc j ≡ sleeping
  pub waits_at : s.pc k ≡ queueing

Step-IsStuck : {s t : System} (j k : ℕ) → Step s t → IsStuck j k s → IsStuck j k t
Step-IsStuck {s} j k (run i move) h = record {
  inv = Step-Inv (run i move) h.inv;
  asleep_at = elim (ℕ_discrete j i) [
    | yes e ↦ absurd (ground (arith, asleep move, h.asleep_at, e))
    | no ne ↦ ground (arith, h.asleep_at, ne)
  ];
  waits_at = elim (ℕ_discrete k i) [
    | yes e ↦
        let taken = shut has_que s.mutex.que.lock j s.pc h.inv.que_inv (rw h.asleep_at refl) in
        let here : is_queueing (s.pc i) ≡ true = rw (← e) (rw h.waits_at refl) in
        ground (arith, still_queueing move taken here, e)
    | no ne ↦ ground (arith, h.waits_at, ne)
  ];
}
Step-IsStuck {s} j k (broadcast i e) h =
    let same : i ≡ k =
      unique has_lk s.mutex.lk.lock i k s.pc h.inv.lk_inv (rw e refl) (rw h.waits_at refl) in
    let moved : is_queueing (s.pc k) ≡ false = rw (← same) (rw e refl) in
    absurd (ground (arith, h.waits_at, moved))

Later-IsStuck : {s t : System} (j k : ℕ) → Later s t → IsStuck j k s → IsStuck j k t
Later-IsStuck j k now h = h
Later-IsStuck j k (then_step l step) h = Step-IsStuck j k step (Later-IsStuck j k l h)

-- Once one thread sleeps for the mutex and another waits for `thrque_lock` to do so too, both stay
-- where they are for ever, and `m->lk` stays taken, so that the mutex is never given back: whatever
-- steps the threads take from there.
pub deadlock :
    {s t : System} (j k : ℕ)
    → Later init s
    → s.pc j ≡ sleeping
    → s.pc k ≡ queueing
    → Later s t
    → (t.pc j ≡ sleeping) × (t.pc k ≡ queueing) × (t.mutex.lk.lock ≡ 1)
deadlock {s} {t} j k l sleeps waits more =
    let at_s : IsStuck j k s = record {
      inv = Later-Inv l init-Inv;
      asleep_at = sleeps;
      waits_at = waits;
    } in
    let h = Later-IsStuck j k more at_s in
    (h.asleep_at, h.waits_at, shut has_lk t.mutex.lk.lock k t.pc h.inv.lk_inv (rw h.waits_at refl))
