-- ===== src/Util/Text.antt =====
-- A C string in memory, and its length.
use orcas.Base.{
  ℕ, zero, suc, ◌+◌, ◌≤◌, ◌<◌, ◌≡◌, ◌≢◌, ◌∙◌, ap, ◌⊎◌, List, [], ◌∷◌, length, some, arith,
}
use orcas.Util.{Memory, put, strlen, strlen_loop}

-- The bytes of `s`, none of them NUL, stand at `p`.
abbrev HasBytes : Memory → ℕ → List ℕ → Type 0
HasBytes mem p [] = Unit {0}
HasBytes mem p (c ∷ s) = (mem p ≡ c) × (c ≢ 0) × HasBytes mem (p + 1) s

-- The text `s` stands at `p`, with a NUL behind it.
abbrev pub HasText : Memory → ℕ → List ℕ → Type 0
HasText mem p [] = mem p ≡ 0
HasText mem p (c ∷ s) = (mem p ≡ c) × (c ≢ 0) × HasText mem (p + 1) s

strlen_loop-eq :
    (fuel p len : ℕ) (mem : Memory) (s : List ℕ)
    → length s < fuel
    → HasText mem p s
    → strlen_loop fuel p len mem ≡ some (len + length s)
unfolding strlen_loop
strlen_loop-eq zero p len mem s h t = absurd (omega arith)
strlen_loop-eq (suc fuel) p len mem [] h t = ground arith
strlen_loop-eq (suc fuel) p len mem (c ∷ s) h t =
    ground (arith, strlen_loop-eq fuel (p + 1) (len + 1) mem s)

-- With fuel past the text, `strlen` returns its length.
pub strlen-length :
    (fuel p : ℕ) (mem : Memory) (s : List ℕ)
    → length s < fuel
    → HasText mem p s
    → strlen fuel p mem ≡ some (length s)
unfolding strlen
strlen-length fuel p mem s h t = ground (arith, strlen_loop-eq fuel p 0 mem s h t)

-- A write clear of a text leaves it.
pub HasText-put :
    (d v : ℕ) (mem : Memory) (p : ℕ) (s : List ℕ)
    → HasText mem p s
    → (d < p) ⊎ (p + length s < d)
    → HasText (put d v mem) p s
HasText-put d v mem p [] t h = ground arith
HasText-put d v mem p (c ∷ s) t h =
    (ground arith, t.1, HasText-put d v mem (p + 1) s t.2 (omega arith))

-- A text stands wherever the same bytes stand.
pub HasText-shift :
    (from to : Memory) (p q : ℕ) (s : List ℕ)
    → ((i : ℕ) → i ≤ length s → to (q + i) ≡ from (p + i))
    → HasText from p s
    → HasText to q s
HasText-shift from to p q [] same t =
    ap to (omega arith) ∙ same 0 (omega arith) ∙ ap from (omega arith) ∙ t
HasText-shift from to p q (c ∷ s) same t = (
  ap to (omega arith) ∙ same 0 (omega arith) ∙ ap from (omega arith) ∙ t.0,
  t.1,
  HasText-shift from to (p + 1) (q + 1) s
      (λ i h. ap to (omega arith) ∙ same (suc i) (omega arith) ∙ ap from (omega arith)) t.2,
)
