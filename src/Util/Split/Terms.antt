-- ===== src/Util/Split/Terms.antt =====
-- What `split` puts into its array: none of a plain text, and the text of one with a separator.
use mathlib.Core.Path.{subst}
use orcas.Base.{
  ℕ, zero, suc, ◌+◌, ◌<◌, ◌≡◌, ◌≢◌, ◌∙◌, arith, List, [], ◌∷◌, ◌++◌, length, length-append, some,
  refl, sym, inr, ap, ◌-◌,
}
use orcas.Util.{Memory, put, cell, jump, split_loop, split}
use orcas.Util.Text.{HasText, HasText-put, HasText-shift}
use orcas.Util.Split.{split-step}

-- No byte of the text is `c`.
abbrev pub Lacks : ℕ → List ℕ → Type 0
Lacks c [] = Unit {0}
Lacks c (x ∷ s) = (x ≢ c) × Lacks c s

-- A text without a separator gives no term, though it is copied.
split_loop-plain :
    (fuel p c terms j : ℕ) (mem : Memory) (s : List ℕ)
    → length s < fuel
    → HasText mem p s
    → Lacks c s
    → p + length s < terms
    → (mem' : Memory) × (split_loop fuel p c terms 0 j mem ≡ some (0, mem'))
      × ((a : ℕ) → a < terms → mem' a ≡ mem a)
unfolding split_loop
split_loop-plain zero p c terms j mem s h t plain below = absurd (omega arith)
split_loop-plain (suc fuel) p c terms j mem [] h t plain below = (mem, ground arith, λ a q. refl)
split_loop-plain (suc fuel) p c terms j mem (x ∷ s) h t plain below =
    let (mem', run, kept) =
      split_loop-plain fuel (p + 1) c terms (j + 1) (put (cell terms 0 j) x mem) s (omega arith)
        (HasText-put (cell terms 0 j) x mem (p + 1) s t.2 (omega arith)) plain.1 (omega arith) in
    (mem', ground arith, λ a q. kept a q ∙ ground arith)

-- One with a separator behind it is the only term.
split_loop-term :
    (fuel p c terms j : ℕ) (mem : Memory) (s : List ℕ)
    → length s + 1 < fuel
    → HasText mem p (s ++ c ∷ [])
    → Lacks c s
    → p + length s + 1 < terms
    → (mem' : Memory) × (split_loop fuel p c terms 0 j mem ≡ some (1, mem'))
      × HasText mem' (terms + j) s
      × ((a : ℕ) → a < terms + j → mem' a ≡ mem a)
unfolding split_loop
split_loop-term zero p c terms j mem s h t plain below = absurd (omega arith)
split_loop-term (suc zero) p c terms j mem s h t plain below = absurd (omega arith)
split_loop-term (suc (suc fuel)) p c terms j mem [] h t plain below =
    (put (cell terms 0 j) 0 mem, ground arith, ground arith, λ a q. ground arith)
split_loop-term (suc (suc fuel)) p c terms j mem (x ∷ s) h t plain below =
    let next : Memory = put (cell terms 0 j) x mem in
    let t' : HasText next (p + 1) (s ++ c ∷ []) =
      HasText-put (cell terms 0 j) x mem (p + 1) (s ++ c ∷ []) t.2
        (omega (arith, length-append s (c ∷ []))) in
    let (mem', run, text, kept) =
      split_loop-term (suc fuel) (p + 1) c terms (j + 1) next s (omega arith) t' plain.1
        (omega arith) in
    (
      mem',
      ground arith,
      (
        kept (terms + j) (omega arith) ∙ ground arith,
        t.1,
        subst (λ a. HasText mem' a s) (omega arith) text,
      ),
      λ a q. kept a (omega arith) ∙ ground arith,
    )

jump-stays : (fuel p c : ℕ) (mem : Memory) → mem p ≢ c → 0 < fuel → jump fuel p c mem ≡ some p
unfolding jump
jump-stays zero p c mem ne h = absurd (omega (arith, h))
jump-stays (suc fuel) p c mem ne h = ground arith

-- `split` of a text without separators below the array of terms ends, reports no term, and leaves
-- the memory below the array.
pub split-plain :
    (fuel str c terms : ℕ) (mem : Memory) (s : List ℕ)
    → length s < fuel
    → c ≢ 0
    → HasText mem str s
    → Lacks c s
    → str + length s < terms
    → (mem' : Memory) × (split fuel str c terms mem ≡ some (0, mem'))
      × ((a : ℕ) → a < terms → mem' a ≡ mem a)
split-plain fuel str c terms mem [] h nz t plain below =
    let (mem', run, kept) = split_loop-plain fuel str c terms 0 mem [] h t plain below in
    let stays = jump-stays fuel str c mem (λ e. nz (sym e ∙ t)) (omega arith) in
    (mem', split-step fuel str c terms str mem stays ∙ run, kept)
split-plain fuel str c terms mem (x ∷ s) h nz t plain below =
    let (mem', run, kept) = split_loop-plain fuel str c terms 0 mem (x ∷ s) h t plain below in
    let stays = jump-stays fuel str c mem (λ e. plain.0 (sym t.0 ∙ e)) (omega arith) in
    (mem', split-step fuel str c terms str mem stays ∙ run, kept)

-- `split` of one name with a separator behind it reports that name as the only term.
pub split-term :
    (fuel str c terms x : ℕ) (mem : Memory) (s : List ℕ)
    → length (x ∷ s) + 1 < fuel
    → HasText mem str (x ∷ s ++ c ∷ [])
    → Lacks c (x ∷ s)
    → str + length (x ∷ s) + 1 < terms
    → (mem' : Memory) × (split fuel str c terms mem ≡ some (1, mem'))
      × HasText mem' terms (x ∷ s)
      × ((a : ℕ) → a < terms → mem' a ≡ mem a)
split-term fuel str c terms x mem s h t plain below =
    let (mem', run, text, kept) = split_loop-term fuel str c terms 0 mem (x ∷ s) h t plain below in
    let stays = jump-stays fuel str c mem (λ e. plain.0 (sym t.0 ∙ e)) (omega arith) in
    (
      mem',
      split-step fuel str c terms str mem stays ∙ run,
      subst (λ a. HasText mem' a (x ∷ s)) (omega arith) text,
      λ a q. kept a (omega arith),
    )

split_loop-separator :
    (fuel p c terms i j : ℕ) (mem : Memory)
    → mem p ≡ c
    → c ≢ 0
    → split_loop (suc fuel) p c terms i j mem
      ≡ split_loop fuel (p + 1) c terms (i + 1) 0 (put (cell terms i j) 0 mem)
unfolding split_loop
split_loop-separator fuel p c terms i j mem e nz = ground arith

split_loop-letter :
    (fuel p c terms i j x : ℕ) (mem : Memory)
    → mem p ≡ x
    → x ≢ 0
    → x ≢ c
    → split_loop (suc fuel) p c terms i j mem
      ≡ split_loop fuel (p + 1) c terms i (j + 1) (put (cell terms i j) x mem)
unfolding split_loop
split_loop-letter fuel p c terms i j x mem e nz ne = ground arith

-- One more term, up to its separator.
pub split_loop-next :
    (fuel p c terms i j : ℕ) (mem : Memory) (s rest : List ℕ)
    → HasText mem p (s ++ c ∷ rest)
    → Lacks c s
    → p + length (s ++ c ∷ rest) < terms
    → (mem' : Memory) × (split_loop (length s + suc fuel) p c terms i j mem
        ≡ split_loop fuel (p + length s + 1) c terms (i + 1) 0 mem')
      × HasText mem' (cell terms i j) s
      × HasText mem' (p + length s + 1) rest
      × ((a : ℕ) → a < cell terms i j → mem' a ≡ mem a)
split_loop-next fuel p c terms i j mem [] rest t plain below =
    let after : Memory = put (cell terms i j) 0 mem in
    (
      after,
      ap (λ f. split_loop f p c terms i j mem) (omega arith)
          ∙ split_loop-separator fuel p c terms i j mem t.0 t.1
          ∙ ap (λ q. split_loop fuel q c terms (i + 1) 0 after) (omega arith),
      ground arith,
      subst (λ a. HasText after a rest) (omega arith)
          (HasText-put (cell terms i j) 0 mem (p + 1) rest t.2 (inr (omega arith))),
      λ a q. ground arith,
    )
split_loop-next fuel p c terms i j mem (x ∷ s) rest t plain below =
    let next : Memory = put (cell terms i j) x mem in
    let t' : HasText next (p + 1) (s ++ c ∷ rest) =
      HasText-put (cell terms i j) x mem (p + 1) (s ++ c ∷ rest) t.2 (omega arith) in
    let (mem', run, text, others, kept) =
      split_loop-next fuel (p + 1) c terms i (j + 1) next s rest t' plain.1 (omega arith) in
    (
      mem',
      ap (λ f. split_loop f p c terms i j mem) (omega arith)
          ∙ split_loop-letter (length s + suc fuel) p c terms i j x mem t.0 t.1 plain.0
          ∙ run
          ∙ ap (λ q. split_loop fuel q c terms (i + 1) 0 mem') (omega arith),
      (
        kept (cell terms i j) (omega arith) ∙ ground arith,
        t.1,
        subst (λ a. HasText mem' a s) (omega arith) text,
      ),
      subst (λ a. HasText mem' a rest) (omega arith) others,
      λ a q. kept a (omega arith) ∙ ground arith,
    )

split_loop-end :
    (fuel p c terms i j : ℕ) (mem : Memory)
    → mem p ≡ 0
    → split_loop (suc fuel) p c terms i j mem ≡ some (i, mem)
unfolding split_loop
split_loop-end fuel p c terms i j mem e = ground arith

-- `split` of two names of less than 20 bytes, each with a separator behind it, reports those two.
pub split-two :
    (fuel str c terms x : ℕ) (mem : Memory) (s u : List ℕ)
    → let text = x ∷ s ++ c ∷ (u ++ c ∷ []) in
      length (x ∷ s) + length u + 2 < fuel
      → HasText mem str text
      → Lacks c (x ∷ s)
      → Lacks c u
      → length (x ∷ s) < 20
      → str + length text < terms
      → (mem' : Memory) × (split fuel str c terms mem ≡ some (2, mem'))
        × HasText mem' (cell terms 0 0) (x ∷ s)
        × HasText mem' (cell terms 1 0) u
        × ((a : ℕ) → a < terms → mem' a ≡ mem a)
split-two fuel str c terms x mem s u h t plain plain_u short below =
    let k : ℕ = fuel - (length (x ∷ s) + length u + 2) - 1 in
    let total : length (x ∷ s) + suc (length u + suc (suc k)) ≡ fuel = omega arith in
    let sizes = length-append (x ∷ s) (c ∷ (u ++ c ∷ [])) in
    let stays = jump-stays fuel str c mem (λ e. plain.0 (sym t.0 ∙ e)) (omega arith) in
    let (m1, run1, first, rest, kept1) =
      split_loop-next (length u + suc (suc k)) str c terms 0 0 mem (x ∷ s) (u ++ c ∷ []) t plain
        below in
    let (m2, run2, second, ends, kept2) =
      split_loop-next (suc k) (str + length (x ∷ s) + 1) c terms 1 0 m1 u [] rest plain_u
        (omega (arith, sizes, below)) in
    (
      m2,
      split-step fuel str c terms str mem stays
          ∙ ap (λ f. split_loop f str c terms 0 0 mem) (sym total)
          ∙ run1
          ∙ run2
          ∙ split_loop-end k (str + length (x ∷ s) + 1 + length u + 1) c terms 2 0 m2 ends,
      HasText-shift m1 m2 (cell terms 0 0) (cell terms 0 0) (x ∷ s)
          (λ i q. kept2 (cell terms 0 0 + i) (omega (arith, short))) first,
      second,
      λ a q. kept2 a (omega arith) ∙ kept1 a (omega arith),
    )
