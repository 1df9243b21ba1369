-- ===== src/Thread/Mutex/Safety.antt =====
-- What holds of the mutex in every state that its threads reach.
use mathlib.Core.Path.{subst}
use native.Mathlib.Decide.{ℕ_discrete}
use orcas.Base.{ℕ, ◌==◌, ◌≡◌, refl, sym, ap, ◌∙◌, Bool, true, false, arith, inl, inr, if◌then◌else◌}
use orcas.Thread.Mutex.{
  Mutex, Pc, outside, entering, testing, queueing, letting, dozing, sleeping, setting, leaving,
  inside, releasing, clearing, waking, finishing, Move, call, enter, test, queue, let_go, doze,
  take_it, leave, release, regain, clear, finish, System, Step, run, broadcast, Later, now,
  then_step, init, at, wake_one, wake_all, has_lk, has_que, owns, is_setting,
}
use orcas.Thread.Mutex.Owner.{Owned, keep, gain, lose, unique}

-- Each of the three words tells whether a thread is in its part of the code, and there is never more
-- than one; a thread that is about to set the mutex has found it clear.
pub record Inv (m : Mutex) (pc : ℕ → Pc) : Type 0 where
  pub lk_inv : Owned has_lk m.lk.lock pc
  pub que_inv : Owned has_que m.que.lock pc
  pub own_inv : Owned owns m.lock pc
  pub set_free : (i : ℕ) → is_setting (pc i) ≡ true → m.lock ≡ 0

-- A move in which nobody comes to be `setting`.
set_keep :
    (lock i : ℕ) (p : Pc) (pc : ℕ → Pc)
    → is_setting p ≡ false
    → ((j : ℕ) → is_setting (pc j) ≡ true → lock ≡ 0)
    → (j : ℕ) → is_setting (at i p pc j) ≡ true
    → lock ≡ 0
set_keep lock i p pc e free j h = ground (arith, free j, e)

-- A move that changes no word and no part.
quiet :
    (m : Mutex) (i : ℕ) (p : Pc) (pc : ℕ → Pc)
    → has_lk p ≡ has_lk (pc i)
    → has_que p ≡ has_que (pc i)
    → owns p ≡ owns (pc i)
    → is_setting p ≡ false
    → Inv m pc
    → Inv m (at i p pc)
quiet m i p pc a b c d v = record {
  lk_inv = keep has_lk m.lk.lock i p pc a v.lk_inv;
  que_inv = keep has_que m.que.lock i p pc b v.que_inv;
  own_inv = keep owns m.lock i p pc c v.own_inv;
  set_free = set_keep m.lock i p pc d v.set_free;
}

is_setting-has_lk : (p : Pc) → is_setting p ≡ true → has_lk p ≡ true
is_setting-has_lk setting h = refl
is_setting-has_lk p h = ground arith

-- While one thread is `setting`, no other is.
sets_once :
    (word i : ℕ) (pc : ℕ → Pc)
    → Owned has_lk word pc
    → pc i ≡ setting
    → (j : ℕ) → is_setting (at i leaving pc j) ≡ true
    → ◌≡◌ {A = ℕ} 1 0
sets_once word i pc o e j h = elim (ℕ_discrete j i) [
  | yes same ↦ absurd (ground (arith, same))
  | no ne ↦
      let other : is_setting (pc j) ≡ true = ground (arith, ne) in
      absurd (ne (unique has_lk word j i pc o (is_setting-has_lk (pc j) other) (rw e refl)))
]

Move-Inv :
    {m after : Mutex} {pc : ℕ → Pc} (i : ℕ) {q p : Pc}
    → Move m q after p
    → pc i ≡ q
    → Inv m pc
    → Inv after (at i p pc)
Move-Inv {m} {pc} i call e v = quiet m i entering pc (rw e refl) (rw e refl) (rw e refl) refl v
Move-Inv {m} {pc} i enter e v = elim v.lk_inv [
  | inl (z, n) ↦ rw z (record {
    lk_inv = gain has_lk i testing pc 0 refl refl (inl (refl, n));
    que_inv = keep has_que m.que.lock i testing pc (rw e refl) v.que_inv;
    own_inv = keep owns m.lock i testing pc (rw e refl) v.own_inv;
    set_free = set_keep m.lock i testing pc refl v.set_free;
  })
  | inr (w, o) ↦ rw w (record {
    lk_inv = keep has_lk 1 i entering pc (rw e refl) (inr (refl, o));
    que_inv = keep has_que m.que.lock i entering pc (rw e refl) v.que_inv;
    own_inv = keep owns m.lock i entering pc (rw e refl) v.own_inv;
    set_free = set_keep m.lock i entering pc refl v.set_free;
  })
]
Move-Inv {m} {pc} i test e v = elim v.own_inv [
  | inl (z, n) ↦ rw z (record {
    lk_inv = keep has_lk m.lk.lock i setting pc (rw e refl) v.lk_inv;
    que_inv = keep has_que m.que.lock i setting pc (rw e refl) v.que_inv;
    own_inv = keep owns 0 i setting pc (rw e refl) (inl (refl, n));
    set_free = λ j h. refl;
  })
  | inr (w, o) ↦
      let waits : (if m.lock == 1 then queueing else setting) ≡ queueing = rw w refl in
      let stays = quiet m i queueing pc (rw e refl) (rw e refl) (rw e refl) refl v in
      subst (λ p. Inv m (at i p pc)) (sym waits) stays
]
Move-Inv {m} {pc} i queue e v = elim v.que_inv [
  | inl (z, n) ↦ rw z (record {
    lk_inv = keep has_lk m.lk.lock i letting pc (rw e refl) v.lk_inv;
    que_inv = gain has_que i letting pc 0 refl refl (inl (refl, n));
    own_inv = keep owns m.lock i letting pc (rw e refl) v.own_inv;
    set_free = set_keep m.lock i letting pc refl v.set_free;
  })
  | inr (w, o) ↦ rw w (record {
    lk_inv = keep has_lk m.lk.lock i queueing pc (rw e refl) v.lk_inv;
    que_inv = keep has_que 1 i queueing pc (rw e refl) (inr (refl, o));
    own_inv = keep owns m.lock i queueing pc (rw e refl) v.own_inv;
    set_free = set_keep m.lock i queueing pc refl v.set_free;
  })
]
Move-Inv {m} {pc} i let_go e v = record {
  lk_inv = lose has_lk m.lk.lock i dozing pc (rw e refl) refl v.lk_inv;
  que_inv = keep has_que m.que.lock i dozing pc (rw e refl) v.que_inv;
  own_inv = keep owns m.lock i dozing pc (rw e refl) v.own_inv;
  set_free = set_keep m.lock i dozing pc refl v.set_free;
}
Move-Inv {m} {pc} i doze e v = quiet m i sleeping pc (rw e refl) (rw e refl) (rw e refl) refl v
Move-Inv {m} {pc} i take_it e v = record {
  lk_inv = keep has_lk m.lk.lock i leaving pc (rw e refl) v.lk_inv;
  que_inv = keep has_que m.que.lock i leaving pc (rw e refl) v.que_inv;
  own_inv = gain owns i leaving pc m.lock (v.set_free i (rw e refl)) refl v.own_inv;
  set_free = sets_once m.lk.lock i pc v.lk_inv e;
}
Move-Inv {m} {pc} i leave e v = record {
  lk_inv = lose has_lk m.lk.lock i inside pc (rw e refl) refl v.lk_inv;
  que_inv = keep has_que m.que.lock i inside pc (rw e refl) v.que_inv;
  own_inv = keep owns m.lock i inside pc (rw e refl) v.own_inv;
  set_free = set_keep m.lock i inside pc refl v.set_free;
}
Move-Inv {m} {pc} i release e v = quiet m i releasing pc (rw e refl) (rw e refl) (rw e refl) refl v
Move-Inv {m} {pc} i regain e v = elim v.lk_inv [
  | inl (z, n) ↦ rw z (record {
    lk_inv = gain has_lk i clearing pc 0 refl refl (inl (refl, n));
    que_inv = keep has_que m.que.lock i clearing pc (rw e refl) v.que_inv;
    own_inv = keep owns m.lock i clearing pc (rw e refl) v.own_inv;
    set_free = set_keep m.lock i clearing pc refl v.set_free;
  })
  | inr (w, o) ↦ rw w (record {
    lk_inv = keep has_lk 1 i releasing pc (rw e refl) (inr (refl, o));
    que_inv = keep has_que m.que.lock i releasing pc (rw e refl) v.que_inv;
    own_inv = keep owns m.lock i releasing pc (rw e refl) v.own_inv;
    set_free = set_keep m.lock i releasing pc refl v.set_free;
  })
]
Move-Inv {m} {pc} i clear e v = record {
  lk_inv = keep has_lk m.lk.lock i waking pc (rw e refl) v.lk_inv;
  que_inv = keep has_que m.que.lock i waking pc (rw e refl) v.que_inv;
  own_inv = lose owns m.lock i waking pc (rw e refl) refl v.own_inv;
  set_free = λ j h. refl;
}
Move-Inv {m} {pc} i finish e v = record {
  lk_inv = lose has_lk m.lk.lock i outside pc (rw e refl) refl v.lk_inv;
  que_inv = keep has_que m.que.lock i outside pc (rw e refl) v.que_inv;
  own_inv = keep owns m.lock i outside pc (rw e refl) v.own_inv;
  set_free = set_keep m.lock i outside pc refl v.set_free;
}

-- A broadcast wakes sleepers, who stay in the same parts.
wake_one-has_lk : (p : Pc) → has_lk (wake_one p) ≡ has_lk p
wake_one-has_lk sleeping = refl
wake_one-has_lk p = ground arith

wake_all-has_lk : (pc : ℕ → Pc) (j : ℕ) → has_lk (wake_all pc j) ≡ has_lk (pc j)
wake_all-has_lk pc j = ground (arith, wake_one-has_lk (pc j))

wake_one-has_que : (p : Pc) → has_que (wake_one p) ≡ has_que p
wake_one-has_que sleeping = refl
wake_one-has_que p = ground arith

wake_all-has_que : (pc : ℕ → Pc) (j : ℕ) → has_que (wake_all pc j) ≡ has_que (pc j)
wake_all-has_que pc j = ground (arith, wake_one-has_que (pc j))

wake_one-owns : (p : Pc) → owns (wake_one p) ≡ owns p
wake_one-owns sleeping = refl
wake_one-owns p = ground arith

wake_all-owns : (pc : ℕ → Pc) (j : ℕ) → owns (wake_all pc j) ≡ owns (pc j)
wake_all-owns pc j = ground (arith, wake_one-owns (pc j))

wake_one-is_setting : (p : Pc) → is_setting (wake_one p) ≡ is_setting p
wake_one-is_setting sleeping = refl
wake_one-is_setting p = ground arith

wake_all-is_setting : (pc : ℕ → Pc) (j : ℕ) → is_setting (wake_all pc j) ≡ is_setting (pc j)
wake_all-is_setting pc j = ground (arith, wake_one-is_setting (pc j))

same_part :
    (part : Pc → Bool) (word : ℕ) (pc pc' : ℕ → Pc)
    → ((i : ℕ) → part (pc' i) ≡ part (pc i))
    → Owned part word pc
    → Owned part word pc'
same_part part word pc pc' e (inl (z, n)) = inl (z, record { none_in = λ i. e i ∙ n.none_in i })
same_part part word pc pc' e (inr (w, o)) = inr (
  w,
  record {
    owner = o.owner;
    inside = e o.owner ∙ o.inside;
    alone = λ i h. o.alone i (sym (e i) ∙ h);
  },
)

pub Step-Inv : {s t : System} → Step s t → Inv s.mutex s.pc → Inv t.mutex t.pc
Step-Inv (run i move) v = Move-Inv i move refl v
Step-Inv {s} (broadcast i e) v =
    let awake : ℕ → Pc = wake_all s.pc in
    let woken_inv : Inv s.mutex awake = record {
      lk_inv = same_part has_lk s.mutex.lk.lock s.pc awake (wake_all-has_lk s.pc) v.lk_inv;
      que_inv = same_part has_que s.mutex.que.lock s.pc awake (wake_all-has_que s.pc) v.que_inv;
      own_inv = same_part owns s.mutex.lock s.pc awake (wake_all-owns s.pc) v.own_inv;
      set_free = λ j h. v.set_free j (sym (wake_all-is_setting s.pc j) ∙ h);
    } in
    quiet s.mutex i finishing awake (sym (wake_all-has_lk s.pc i ∙ ap has_lk e))
      (sym (wake_all-has_que s.pc i ∙ ap has_que e)) (sym (wake_all-owns s.pc i ∙ ap owns e)) refl
      woken_inv

pub Later-Inv : {s t : System} → Later s t → Inv s.mutex s.pc → Inv t.mutex t.pc
Later-Inv now v = v
Later-Inv (then_step l step) v = Step-Inv step (Later-Inv l v)

pub init-Inv : Inv init.mutex init.pc
init-Inv = record {
  lk_inv = inl (refl, record { none_in = λ i. refl });
  que_inv = inl (refl, record { none_in = λ i. refl });
  own_inv = inl (refl, record { none_in = λ i. refl });
  set_free = λ i h. refl;
}

-- From a fresh mutex, no two threads are between taking it and clearing it at once, in whatever
-- order their steps come, up to the switch to a thread that has slept.
pub mutex_exclusion :
    {s : System} (i j : ℕ) → Later init s → owns (s.pc i) ≡ true → owns (s.pc j) ≡ true → i ≡ j
mutex_exclusion {s} i j l = unique owns s.mutex.lock i j s.pc (Later-Inv l init-Inv).own_inv
