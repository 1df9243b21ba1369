-- ===== src/Util/Concat.antt =====
-- `strcat`: the bytes of the second text behind the first, and what becomes of the NUL.
use orcas.Base.{
  ℕ, zero, suc, ◌+◌, ◌-◌, ◌≤◌, ◌<◌, ◌≡◌, ◌⊎◌, ◌∙◌, ltb, leb, ◌&&◌, if◌then◌else◌, arith, List, [],
  ◌∷◌, ◌++◌, length, Option, some,
}
use orcas.Util.{Memory, put, strcat, find_end, append_loop}
use orcas.Util.Text.{HasText, HasText-put}

find_end-eq :
    (fuel d : ℕ) (mem : Memory) (s : List ℕ)
    → length s < fuel
    → HasText mem d s
    → find_end fuel d mem ≡ some (d + length s)
unfolding find_end
find_end-eq zero d mem s h t = absurd (omega arith)
find_end-eq (suc fuel) d mem [] h t = ground arith
find_end-eq (suc fuel) d mem (c ∷ s) h t = ground (arith, find_end-eq fuel (d + 1) mem s)

-- Memory with the `n` bytes from `q` on copied to `d`.
abbrev pub copied : (d q n : ℕ) → Memory → Memory
copied d q n mem a = if leb d a && ltb a (d + n) then mem (q + (a - d)) else mem a

-- `mem'` is the outcome, and has the bytes of `t` at `d`.
abbrev Appended : (d q n : ℕ) (mem : Memory) → Option Memory → Type 0
Appended d q n mem out =
    (mem' : Memory) × (out ≡ some mem') × ((a : ℕ) → mem' a ≡ copied d q n mem a)

append_loop-Appended :
    (fuel d q : ℕ) (mem : Memory) (t : List ℕ)
    → length t < fuel
    → HasText mem q t
    → (d + length t ≤ q) ⊎ (q + length t < d)
    → Appended d q (length t) mem (append_loop fuel d q mem)
unfolding append_loop
append_loop-Appended zero d q mem t h ht apart = absurd (omega arith)
append_loop-Appended (suc fuel) d q mem [] h ht apart = (mem, ground arith, λ a. ground arith)
append_loop-Appended (suc fuel) d q mem (c ∷ t) h ht apart =
    let ht' : HasText (put d c mem) (q + 1) t = HasText-put d c mem (q + 1) t ht.2 (omega arith) in
    let (mem', run, all) =
      append_loop-Appended fuel (d + 1) (q + 1) (put d c mem) t (omega arith) ht' (omega arith) in
    (mem', ground arith, λ a. ground (arith, all a))

HasText-join :
    (mem mem' : Memory) (d : ℕ) (s t : List ℕ)
    → HasText mem d s
    → ((a : ℕ) → d ≤ a → a < d + length s → mem' a ≡ mem a)
    → HasText mem' (d + length s) t
    → HasText mem' d (s ++ t)
HasText-join mem mem' d [] t hs same ht = let e : d + 0 ≡ d = omega arith in rw e at ht
HasText-join mem mem' d (c ∷ s) t hs same ht =
    let e : d + suc (length s) ≡ d + 1 + length s = omega arith in
    (
      same d (omega arith) (omega arith) ∙ hs.0,
      hs.1,
      HasText-join mem mem' (d + 1) s t hs.2 (λ a lo hi. same a (omega arith) (omega arith))
          (rw e at ht),
    )

pub HasText-moved :
    (mem mem' : Memory) (d q : ℕ) (t : List ℕ)
    → HasText mem q t
    → ((i : ℕ) → i < length t → mem' (d + i) ≡ mem (q + i))
    → mem' (d + length t) ≡ 0
    → HasText mem' d t
HasText-moved mem mem' d q [] ht same last = let e : d + 0 ≡ d = omega arith in rw e at last
HasText-moved mem mem' d q (c ∷ t) ht same last =
    let e0 : d + 0 ≡ d = omega arith in
    let e1 : q + 0 ≡ q = omega arith in
    let first : mem' (d + 0) ≡ mem (q + 0) = same 0 (omega arith) in
    (
      ground arith,
      ht.1,
      HasText-moved mem mem' (d + 1) (q + 1) t ht.2
          (λ i lt.
            let e2 : d + 1 + i ≡ d + suc i = omega arith in
            let e3 : q + 1 + i ≡ q + suc i = omega arith in
            rw (e2, e3) (same (suc i) (omega arith)))
          (let e4 : d + 1 + length t ≡ d + suc (length t) = omega arith in rw e4 last),
    )

strcat-step :
    (fuel d q stop : ℕ) (mem : Memory)
    → find_end fuel d mem ≡ some stop
    → strcat fuel d q mem ≡ append_loop fuel stop q mem
unfolding strcat
strcat-step fuel d q stop mem e = rw (e, strcat)

-- With the texts apart and room between them, `strcat` ends, copies the bytes of the second text
-- over the NUL of the first and what is behind it, and changes no other byte. It writes no NUL: the
-- sum is the text of both only once a NUL is put behind it.
pub strcat-appends :
    (fuel d q : ℕ) (mem : Memory) (s t : List ℕ)
    → length s < fuel
    → length t < fuel
    → HasText mem d s
    → HasText mem q t
    → (d + length s + length t ≤ q) ⊎ (q + length t < d)
    → (mem' : Memory) × (strcat fuel d q mem ≡ some mem')
      × ((a : ℕ) → mem' a ≡ copied (d + length s) q (length t) mem a)
      × HasText (put (d + length s + length t) 0 mem') d (s ++ t)
strcat-appends fuel d q mem s t hs_fuel ht_fuel hs ht apart =
    let (mem', run, all) =
      append_loop-Appended fuel (d + length s) q mem t ht_fuel ht (omega arith) in
    (
      mem',
      strcat-step fuel d q (d + length s) mem (find_end-eq fuel d mem s hs_fuel hs) ∙ run,
      all,
      HasText-join mem _ d s t hs (λ a lo hi. ground (arith, all a))
          (HasText-moved mem _ (d + length s) q t ht
            (λ i lt.
              let e : d + length s + i - (d + length s) ≡ i = omega arith in
              ground (arith, all (d + length s + i), e))
            (ground arith)),
    )
