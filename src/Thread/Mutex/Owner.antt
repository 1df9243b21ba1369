-- ===== src/Thread/Mutex/Owner.antt =====
-- A word that is 1 while one thread is in a part of its code, and 0 while none is.
use orcas.Base.{ℕ, ◌≡◌, ◌⊎◌, refl, sym, ◌∙◌, Bool, true, false, arith, inl, inr}
use orcas.Thread.Mutex.{Pc, at}

module _ (part : Pc → Bool) where
  pub record Nobody (pc : ℕ → Pc) : Type 0 where
    pub none_in : (i : ℕ) → part (pc i) ≡ false

  pub record Somebody (pc : ℕ → Pc) : Type 0 where
    pub owner : ℕ
    pub inside : part (pc owner) ≡ true
    pub alone : (i : ℕ) → part (pc i) ≡ true → i ≡ owner

  abbrev pub Owned : (word : ℕ) → (ℕ → Pc) → Type 0
  Owned word pc = ((word ≡ 0) × Nobody pc) ⊎ ((word ≡ 1) × Somebody pc)

  -- A move that stays in the part or outside.
  pub keep :
      (word i : ℕ) (p : Pc) (pc : ℕ → Pc)
      → part p ≡ part (pc i)
      → Owned word pc
      → Owned word (at i p pc)
  keep word i p pc e (inl (w, n)) =
      inl (w, record { none_in = λ j. ground (arith, n.none_in j, n.none_in i, e) })
  keep word i p pc e (inr (w, o)) = inr (
    w,
    record {
      owner = o.owner;
      inside = ground (arith, o.inside, e);
      alone = λ j h. ground (arith, o.alone j, o.alone i, e);
    },
  )

  -- A move into the part, where nobody is.
  pub gain :
      (i : ℕ) (p : Pc) (pc : ℕ → Pc) (word : ℕ)
      → word ≡ 0
      → part p ≡ true
      → Owned word pc
      → Owned 1 (at i p pc)
  gain i p pc word z e (inl (w, n)) = inr (
    refl,
    record { owner = i; inside = ground (arith, e); alone = λ j h. ground (arith, n.none_in j) },
  )
  gain i p pc word z e (inr (w, o)) = absurd (omega (arith, z, w))

  -- A move out of the part.
  pub lose :
      (word i : ℕ) (p : Pc) (pc : ℕ → Pc)
      → part (pc i) ≡ true
      → part p ≡ false
      → Owned word pc
      → Owned 0 (at i p pc)
  lose word i p pc e f (inl (w, n)) = absurd (ground (arith, n.none_in i, e))
  lose word i p pc e f (inr (w, o)) =
      inl (refl, record { none_in = λ j. ground (arith, o.alone j, o.alone i, e, f) })

  -- Two threads in the part are one.
  pub unique :
      (word i j : ℕ) (pc : ℕ → Pc) → Owned word pc → part (pc i) ≡ true → part (pc j) ≡ true → i ≡ j
  unique word i j pc (inl (w, n)) hi hj = absurd (ground (arith, n.none_in i, hi))
  unique word i j pc (inr (w, o)) hi hj = o.alone i hi ∙ sym (o.alone j hj)

  pub shut : (word i : ℕ) (pc : ℕ → Pc) → Owned word pc → part (pc i) ≡ true → word ≡ 1
  shut word i pc (inl (w, n)) hi = absurd (ground (arith, n.none_in i, hi))
  shut word i pc (inr (w, o)) hi = w
