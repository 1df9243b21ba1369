-- ===== src/Lock/Safety.antt =====
-- What holds of the spinlock in every state that its threads reach.
use orcas.Base.{ℕ, ◌≡◌, ◌⊎◌, refl, true, false, arith, inl, inr}
use orcas.Lock.{
  Spinlock, Pc, spinning, holding, holds, Move, call, turn, unlock, System, run, at, Reach, start,
  later, spin_once,
}

-- The lock is 0 and no thread holds it, or it is 1 and one thread does.
record Free (lock : ℕ) (pc : ℕ → Pc) : Type 0 where
  pub open_lock : lock ≡ 0
  pub nobody : (i : ℕ) → holds (pc i) ≡ false

record Held (lock : ℕ) (pc : ℕ → Pc) : Type 0 where
  pub shut_lock : lock ≡ 1
  pub owner : ℕ
  pub owns : holds (pc owner) ≡ true
  pub alone : (i : ℕ) → holds (pc i) ≡ true → i ≡ owner

abbrev Inv : System → Type 0
Inv s = Free s.spl.lock s.pc ⊎ Held s.spl.lock s.pc

still_Free :
    {lock : ℕ} {pc : ℕ → Pc} (i : ℕ) (p : Pc)
    → holds p ≡ false
    → Free lock pc
    → Free lock (at i p pc)
still_Free i p e f = record { open_lock = f.open_lock; nobody = λ j. ground (arith, f.nobody j) }

still_Held :
    {lock : ℕ} {pc : ℕ → Pc} (i : ℕ) (p : Pc)
    → holds p ≡ false
    → holds (pc i) ≡ false
    → Held lock pc
    → Held lock (at i p pc)
still_Held i p e before h = record {
  shut_lock = h.shut_lock;
  owner = h.owner;
  owns = ground (arith, h.owns);
  alone = λ j hj. ground (arith, h.alone j, h.owns);
}

Move-Inv :
    {spl after : Spinlock} {pc : ℕ → Pc} (i : ℕ) {q p : Pc}
    → Move spl q after p
    → pc i ≡ q
    → Inv (record { spl = spl; pc = pc })
    → Inv (record { spl = after; pc = at i p pc })
Move-Inv i call e (inl f) = inl (still_Free i spinning refl f)
Move-Inv i call e (inr h) = inr (still_Held i spinning refl (rw e refl) h)
Move-Inv i turn e (inl f) = rw f.open_lock (
    inr (record {
      shut_lock = refl;
      owner = i;
      owns = ground arith;
      alone = λ j hj. ground (arith, f.nobody j);
    }))
Move-Inv {spl} {pc} i turn e (inr h) =
    let same : Held spl.lock (at i spinning pc) = still_Held i spinning refl (rw e refl) h in
    rw h.shut_lock
      (inr (record { shut_lock = refl; owner = same.owner; owns = same.owns; alone = same.alone }))
Move-Inv {pc} i unlock e (inl f) = absurd (ground (arith, f.nobody i))
Move-Inv {pc} i unlock e (inr h) =
    inl (record { open_lock = refl; nobody = λ j. ground (arith, h.alone j, h.alone i) })

Reach-Inv : {s : System} → Reach s → Inv s
Reach-Inv start = inl (record { open_lock = refl; nobody = λ i. refl })
Reach-Inv (later r (run i move)) = Move-Inv i move refl (Reach-Inv r)

-- No two threads hold the spinlock at once, in whatever order the threads' calls and turns of the
-- loop come.
pub mutual_exclusion :
    {s : System} → Reach s → (i j : ℕ) → holds (s.pc i) ≡ true → holds (s.pc j) ≡ true → i ≡ j
mutual_exclusion r i j hi hj = elim (Reach-Inv r) [
  | inl f ↦ absurd (ground (arith, f.nobody i))
  | inr h ↦ omega (arith, h.alone i hi, h.alone j hj)
]

-- In every reachable state either a thread that takes a turn of the loop gets the spinlock, or some
-- thread holds it: the lock is never shut with no holder.
pub no_lost_lock :
    {s : System} → Reach s → ((spin_once s.spl).0 ≡ holding) ⊎ ((j : ℕ) × (holds (s.pc j) ≡ true))
no_lost_lock r = elim (Reach-Inv r) [
  | inl f ↦ inl (rw f.open_lock refl)
  | inr h ↦ inr (h.owner, h.owns)
]
