-- ===== src/Util/Compare.antt =====
-- `strcmp`, against the order of texts that it decides.
use orcas.Base.{
  ℕ, zero, suc, ◌+◌, ◌<◌, ◌≡◌, refl, ap, Bool, true, false, ◌&&◌, ◌==◌, if◌then◌else◌, arith, List,
  [], ◌∷◌, length, some, ◌↔◌, ◌≢◌, ◌∙◌,
}
use orcas.Util.{Memory, minus_one, strcmp}
use orcas.Util.Text.{HasText}

-- `s` is the beginning of `t`.
abbrev starts : List ℕ → List ℕ → Bool
starts [] t = true
starts (c ∷ s) [] = false
starts (c ∷ s) (d ∷ t) = c == d && starts s t

-- `strcmp` of two texts is 0 if they have the same bytes, -1 if the first is a proper beginning of
-- the second, and 1 in every other case.
pub strcmp-starts :
    (fuel p q : ℕ) (mem : Memory) (s t : List ℕ)
    → length s < fuel
    → HasText mem p s
    → HasText mem q t
    → strcmp fuel p q mem
      ≡ some (if starts s t then (if length s == length t then 0 else minus_one) else 1)
unfolding strcmp
strcmp-starts zero p q mem s t h hs ht = absurd (omega arith)
strcmp-starts (suc fuel) p q mem [] [] h hs ht = ground arith
strcmp-starts (suc fuel) p q mem [] (d ∷ t) h hs ht = ground arith
strcmp-starts (suc fuel) p q mem (c ∷ s) [] h hs ht = ground arith
strcmp-starts (suc fuel) p q mem (c ∷ s) (d ∷ t) h hs ht =
    ground (arith, strcmp-starts fuel (p + 1) (q + 1) mem s t)

starts-same : (s t : List ℕ) → starts s t ≡ true → length s ≡ length t → s ≡ t
starts-same [] [] h e = refl
starts-same [] (d ∷ t) h e = absurd (omega arith)
starts-same (c ∷ s) [] h e = absurd (omega arith)
starts-same (c ∷ s) (d ∷ t) h e = ground (arith, starts-same s t)

starts_refl : (s : List ℕ) → starts s s ≡ true
starts_refl [] = refl
starts_refl (c ∷ s) = ground (arith, starts_refl s)

-- `strcmp` returns 0 exactly for equal texts.
strcmp-zero_iff :
    (fuel p q : ℕ) (mem : Memory) (s t : List ℕ)
    → length s < fuel
    → HasText mem p s
    → HasText mem q t
    → (strcmp fuel p q mem ≡ some 0) ↔ (s ≡ t)
strcmp-zero_iff fuel p q mem s t h hs ht = (
  λ e. ground (arith, strcmp-starts fuel p q mem s t h hs ht, starts-same s t),
  λ e. ground (arith, strcmp-starts fuel p q mem s t h hs ht, starts_refl s, ap length e),
)

pub strcmp-same :
    (fuel p q : ℕ) (mem : Memory) (s : List ℕ)
    → length s < fuel
    → HasText mem p s
    → HasText mem q s
    → strcmp fuel p q mem ≡ some 0
strcmp-same fuel p q mem s h hs ht = (strcmp-zero_iff fuel p q mem s s h hs ht).1 refl

pub strcmp-differs :
    (fuel p q : ℕ) (mem : Memory) (s t : List ℕ)
    → length s < fuel
    → HasText mem p s
    → HasText mem q t
    → s ≢ t
    → (r : ℕ) × (strcmp fuel p q mem ≡ some r) × (r ≢ 0)
strcmp-differs fuel p q mem s t h hs ht ne =
    let run = strcmp-starts fuel p q mem s t h hs ht in
    (_, run, λ e. ne ((strcmp-zero_iff fuel p q mem s t h hs ht).0 (run ∙ ap some e)))
