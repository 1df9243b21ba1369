-- ===== src/Util.antt =====
-- util.c and util.h: byte copies and C strings, on a memory of bytes. Loops that look for a NUL
-- have fuel, and give `none` where it runs out.
pub mod Text
pub mod Copy
pub mod Compare
pub mod Concat
pub mod Split
mod Tests
use orcas.Base.{
  ℕ, zero, suc, ◌+◌, ◌-◌, ◌*◌, ◌==◌, if◌then◌else◌, ◌&&◌, true, false, Option, none, some,
}

-- A byte for each address.
abbrev pub Memory : Type 0
Memory = ℕ → ℕ

-- `*p = v`
abbrev pub put : ℕ → ℕ → Memory → Memory
put p v mem a = if a == p then v else mem a

-- The return value is `dst`.
pub memmove : (dst src cnt : ℕ) → Memory → Memory
memmove dst src zero mem = mem
memmove dst src (suc cnt) mem = memmove (dst + 1) (src + 1) cnt (put dst (mem src) mem)

-- -1, as the `int` of 32 bits that it is.
abbrev pub minus_one : ℕ
minus_one = 0xffffffff

unfoldable pub strcmp : (fuel p1 p2 : ℕ) → Memory → Option ℕ
strcmp zero p1 p2 mem = none
strcmp (suc fuel) p1 p2 mem = elim (mem p1 == mem p2) [
  | true ↦ elim (mem p1 == 0 && mem p2 == 0) [
    | true ↦ some 0
    | false ↦ strcmp fuel (p1 + 1) (p2 + 1) mem
  ]
  | false ↦ some (if mem p1 == 0 then minus_one else 1)
]

-- The count that is left, and the memory.
pub strncpy : (d s cnt : ℕ) → Memory → ℕ × Memory
strncpy d s zero mem = (zero, mem)
strncpy d s (suc cnt) mem = elim (mem s == 0) [
  | true ↦ (suc cnt, mem)
  | false ↦ strncpy (d + 1) (s + 1) cnt (put d (mem s) mem)
]

strlen_loop : (fuel p len : ℕ) → Memory → Option ℕ
strlen_loop zero p len mem = none
strlen_loop (suc fuel) p len mem = elim (mem p == 0) [
  | true ↦ some len
  | false ↦ strlen_loop fuel (p + 1) (len + 1) mem
]

pub strlen : (fuel str : ℕ) → Memory → Option ℕ
unfolding strlen_loop
strlen fuel str mem = strlen_loop fuel str 0 mem

-- The first loop of `strcat`: the end of the text at `dst`.
find_end : (fuel dst : ℕ) → Memory → Option ℕ
find_end zero dst mem = none
find_end (suc fuel) dst mem = elim (mem dst == 0) [
  | true ↦ some dst
  | false ↦ find_end fuel (dst + 1) mem
]

-- Its second loop, which stops at the NUL without copying it.
append_loop : (fuel dst src : ℕ) → Memory → Option Memory
append_loop zero dst src mem = none
append_loop (suc fuel) dst src mem = elim (mem src == 0) [
  | true ↦ some mem
  | false ↦ append_loop fuel (dst + 1) (src + 1) (put dst (mem src) mem)
]

pub strcat : (fuel dst src : ℕ) → Memory → Option Memory
unfolding find_end append_loop
strcat fuel dst src mem = elim (find_end fuel dst mem) [
  | none ↦ none
  | some stop ↦ append_loop fuel stop src mem
]

abbrev lterm : ℕ
lterm = 20

-- `&terms[i][j]`: the rows of a `char [NTERM][LTERM]` follow one another.
abbrev pub cell : (terms i j : ℕ) → ℕ
cell terms i j = terms + lterm * i + j

-- `while(*p == c) p++`
pub jump : (fuel p c : ℕ) → Memory → Option ℕ
jump zero p c mem = none
jump (suc fuel) p c mem = elim (mem p == c) [ true ↦ jump fuel (p + 1) c mem | false ↦ some p ]

pub split_loop : (fuel p c terms i j : ℕ) → Memory → Option (ℕ × Memory)
split_loop zero p c terms i j mem = none
split_loop (suc fuel) p c terms i j mem = elim (mem p == 0) [
  | true ↦ some (i, mem)
  | false ↦ elim (mem p == c) [
    | true ↦ split_loop fuel (p + 1) c terms (i + 1) 0 (put (cell terms i j) 0 mem)
    | false ↦ split_loop fuel (p + 1) c terms i (j + 1) (put (cell terms i j) (mem p) mem)
  ]
]

-- The count of terms, and the memory.
pub split : (fuel str c terms : ℕ) → Memory → Option (ℕ × Memory)
unfolding jump split_loop
split fuel str c terms mem = elim (jump fuel str c mem) [
  | none ↦ none
  | some p ↦ split_loop fuel p c terms 0 0 mem
]
