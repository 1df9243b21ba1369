-- ===== src/Util/Copy.antt =====
-- `memmove` and `strncpy`: which bytes they copy, and when.
use orcas.Base.{
  ℕ, zero, suc, ◌+◌, ◌-◌, ◌≤◌, ◌<◌, ◌≡◌, ◌⊎◌, refl, ap, ltb, leb, ◌&&◌, if◌then◌else◌, arith, inl,
  inr, List, [], ◌∷◌, length, min,
}
use orcas.Util.{Memory, put, memmove, strncpy}
use orcas.Util.Text.{HasText, HasText-put}

-- A destination at or below the source, or past its end, gets the bytes of the source, and no other
-- byte changes.
pub memmove-copies :
    (dst src cnt : ℕ) (mem : Memory) (a : ℕ)
    → (dst ≤ src) ⊎ (src + cnt ≤ dst)
    → memmove dst src cnt mem a
      ≡ (if leb dst a && ltb a (dst + cnt) then mem (src + (a - dst)) else mem a)
unfolding memmove
memmove-copies dst src zero mem a h = ground arith
memmove-copies dst src (suc cnt) mem a (inl h) =
    ground
      (arith, memmove-copies (dst + 1) (src + 1) cnt (put dst (mem src) mem) a (inl (omega arith)))
memmove-copies dst src (suc cnt) mem a (inr h) =
    ground
      (arith, memmove-copies (dst + 1) (src + 1) cnt (put dst (mem src) mem) a (inr (omega arith)))

-- The copy goes upwards: what lies below the destination stays.
memmove-below :
    (dst src cnt : ℕ) (mem : Memory) (a : ℕ) → a < dst → memmove dst src cnt mem a ≡ mem a
unfolding memmove
memmove-below dst src zero mem a h = refl
memmove-below dst src (suc cnt) mem a h =
    ground (arith, memmove-below (dst + 1) (src + 1) cnt (put dst (mem src) mem) a)

-- One byte above the source, the copy repeats the first byte all through the destination.
memmove-smears :
    (src cnt : ℕ) (mem : Memory) (i : ℕ)
    → i ≤ cnt
    → memmove (src + 1) src cnt mem (src + i) ≡ mem src
unfolding memmove
memmove-smears src zero mem i h = let e : src + i ≡ src = omega arith in ap mem e
memmove-smears src (suc cnt) mem zero h =
    let e : src + zero ≡ src = omega arith in
    rw e
      (ground (arith, memmove-below (src + 1 + 1) (src + 1) cnt (put (src + 1) (mem src) mem) src))
memmove-smears src (suc cnt) mem (suc i) h =
    let e : src + suc i ≡ src + 1 + i = omega arith in
    rw e (ground (arith, memmove-smears (src + 1) cnt (put (src + 1) (mem src) mem) i))

-- `strncpy` copies the text up to its end or up to `cnt` bytes, whichever comes first, writes no
-- NUL behind it and nothing else, and returns the part of `cnt` that is left, if the destination
-- lies clear of the text.
pub strncpy-copies :
    (d s cnt : ℕ) (mem : Memory) (text : List ℕ) (a : ℕ)
    → HasText mem s text
    → (d + cnt ≤ s) ⊎ (s + length text < d)
    → ((strncpy d s cnt mem).0 ≡ cnt - length text)
      × ((strncpy d s cnt mem).1 a
          ≡ (if leb d a && ltb a (d + min cnt (length text)) then mem (s + (a - d)) else mem a))
unfolding strncpy
strncpy-copies d s zero mem text a t h = ground arith
strncpy-copies d s (suc cnt) mem [] a t h = ground arith
strncpy-copies d s (suc cnt) mem (c ∷ text) a t h =
    let t' : HasText (put d c mem) (s + 1) text =
      HasText-put d c mem (s + 1) text t.2 (omega arith) in
    ground (arith, strncpy-copies (d + 1) (s + 1) cnt (put d c mem) text a t' (omega arith))
