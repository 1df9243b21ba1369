-- ===== src/Util/Split.antt =====
-- How many terms `split` reports.
pub mod Terms
use orcas.Base.{
  ℕ, zero, suc, ◌+◌, ◌≤◌, ◌<◌, ◌≡◌, ◌≢◌, ◌∙◌, ◌==◌, if◌then◌else◌, arith, List, [], ◌∷◌, length,
  some,
}
use native.Mathlib.Decide.{ℕ_discrete}
use orcas.Util.{Memory, put, cell, jump, split_loop, split}
use orcas.Util.Text.{HasText, HasText-put}

-- The separators in a text, and the text behind its leading separators.
abbrev pub count : ℕ → List ℕ → ℕ
count c [] = 0
count c (x ∷ s) = let rest = count c s in if x == c then suc rest else rest

abbrev skip : ℕ → List ℕ → List ℕ
skip c [] = []
skip c (x ∷ s) = if x == c then skip c s else x ∷ s

split_loop-count :
    (fuel p c terms i j : ℕ) (mem : Memory) (s : List ℕ)
    → length s < fuel
    → HasText mem p s
    → p + length s < terms
    → (mem' : Memory) × (split_loop fuel p c terms i j mem ≡ some (i + count c s, mem'))
unfolding split_loop
split_loop-count zero p c terms i j mem s h t below = absurd (omega arith)
split_loop-count (suc fuel) p c terms i j mem [] h t below = (mem, ground arith)
split_loop-count (suc fuel) p c terms i j mem (x ∷ s) h t below = elim (ℕ_discrete x c) [
  | yes e ↦
      let (mem', run) =
        split_loop-count fuel (p + 1) c terms (i + 1) 0 (put (cell terms i j) 0 mem) s (omega arith)
          (HasText-put (cell terms i j) 0 mem (p + 1) s t.2 (omega arith)) (omega arith) in
      (mem', ground arith)
  | no ne ↦
      let (mem', run) =
        split_loop-count fuel (p + 1) c terms i (j + 1) (put (cell terms i j) x mem) s (omega arith)
          (HasText-put (cell terms i j) x mem (p + 1) s t.2 (omega arith)) (omega arith) in
      (mem', ground arith)
]

-- The text behind the leading separators stands at the pointer that `jump` returns.
jump-skip :
    (fuel p c : ℕ) (mem : Memory) (s : List ℕ)
    → length s < fuel
    → c ≢ 0
    → HasText mem p s
    → (q : ℕ) × (jump fuel p c mem ≡ some q)
      × HasText mem q (skip c s)
      × (q + length (skip c s) ≡ p + length s)
      × (length (skip c s) ≤ length s)
unfolding jump
jump-skip zero p c mem s h nz t = absurd (omega arith)
jump-skip (suc fuel) p c mem [] h nz t = (p, ground arith, t, omega arith, omega arith)
jump-skip (suc fuel) p c mem (x ∷ s) h nz t = elim (ℕ_discrete x c) [
  | yes e ↦
      let (q, run, text, stop, short) = jump-skip fuel (p + 1) c mem s (omega arith) nz t.2 in
      (q, ground arith, ground arith, ground arith, ground arith)
  | no ne ↦ (p, ground arith, ground arith, ground arith, ground arith)
]

pub split-step :
    (fuel str c terms q : ℕ) (mem : Memory)
    → jump fuel str c mem ≡ some q
    → split fuel str c terms mem ≡ split_loop fuel q c terms 0 0 mem
unfolding split
split-step fuel str c terms q mem e = rw (e, split)

-- `split` of a text below the array of terms ends, and reports as many terms as there are
-- separators behind the leading ones: a last term with no separator behind it is not counted.
pub split-count :
    (fuel str c terms : ℕ) (mem : Memory) (s : List ℕ)
    → length s < fuel
    → c ≢ 0
    → HasText mem str s
    → str + length s < terms
    → (mem' : Memory) × (split fuel str c terms mem ≡ some (count c (skip c s), mem'))
split-count fuel str c terms mem s h nz t below =
    let (q, run, text, stop, short) = jump-skip fuel str c mem s h nz t in
    let (mem', done) =
      split_loop-count fuel q c terms 0 0 mem (skip c s) (omega arith) text (omega arith) in
    (mem', split-step fuel str c terms q mem run ∙ done ∙ ground arith)
