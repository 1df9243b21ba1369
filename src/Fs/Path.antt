-- ===== src/Fs/Path.antt =====
-- `getNextDir` and `getFileName` of fs.c, on a path in memory, with fuel for the search of its end.
mod Tests
use orcas.Base.{
  ℕ, zero, suc, ◌+◌, ◌≤◌, ◌<◌, ◌≡◌, ◌≢◌, ◌⊎◌, ◌∙◌, refl, ◌==◌, ◌||◌, if◌then◌else◌, true, false,
  Option, none, some, List, [], ◌∷◌, length, arith, ap, fun_ext,
}
use orcas.Util.{Memory, put}
use orcas.Util.Text.{HasText, HasText-put}

-- The `while` of `getNextDir`.
pub name_end : (fuel p : ℕ) → Memory → Option ℕ
name_end zero p mem = none
name_end (suc fuel) p mem = elim (mem p == 0 || mem p == b'/') [
  | true ↦ some p
  | false ↦ name_end fuel (p + 1) mem
]

-- The pointer that is returned, and the memory.
pub get_next_dir : (fuel path : ℕ) → Memory → Option (ℕ × Memory)
get_next_dir fuel path mem =
    let q = if mem path == b'/' then path + 1 else path in
    elim (name_end fuel q mem) [ none ↦ none | some p ↦ some (q, put p 0 mem) ]

-- The `while` of `getFileName` and the store behind it: `pname` is never advanced.
file_name_loop : (fuel p1 p2 pname : ℕ) → Memory → Option (ℕ × Memory)
file_name_loop zero p1 p2 pname mem = none
file_name_loop (suc fuel) p1 p2 pname mem = elim (mem p1 == 0) [
  | true ↦ some (p2, put pname 0 mem)
  | false ↦
      file_name_loop fuel (p1 + 1) (if mem p1 == b'/' then p1 else p2) pname
        (put pname (mem p1) mem)
]

-- The value is `p2` before its `++`: the last '/', not the name behind it.
pub get_file_name : (fuel path pname : ℕ) → Memory → Option (ℕ × Memory)
unfolding file_name_loop
get_file_name fuel path pname mem = file_name_loop fuel path path pname mem

-- Where the last '/' of a text stands, or `none_yet`.
abbrev pub last_slash : (p none_yet : ℕ) → List ℕ → ℕ
last_slash p none_yet [] = none_yet
last_slash p none_yet (c ∷ s) = last_slash (p + 1) (if c == b'/' then p else none_yet) s

twice : (a v w : ℕ) (mem : Memory) → put a v (put a w mem) ≡ put a v mem
twice a v w mem = fun_ext λ x. ground arith

file_name_loop-last :
    (fuel p1 p2 pname : ℕ) (mem : Memory) (s : List ℕ)
    → length s < fuel
    → HasText mem p1 s
    → (pname < p1) ⊎ (p1 + length s < pname)
    → file_name_loop fuel p1 p2 pname mem ≡ some (last_slash p1 p2 s, put pname 0 mem)
unfolding file_name_loop
file_name_loop-last zero p1 p2 pname mem s h t apart = absurd (omega arith)
file_name_loop-last (suc fuel) p1 p2 pname mem [] h t apart = ground arith
file_name_loop-last (suc fuel) p1 p2 pname mem (c ∷ s) h t apart =
    let t' : HasText (put pname c mem) (p1 + 1) s =
      HasText-put pname c mem (p1 + 1) s t.2 (omega arith) in
    let next = if c == b'/' then p1 else p2 in
    let rest =
      file_name_loop-last fuel (p1 + 1) next pname (put pname c mem) s (omega arith) t'
        (omega arith) in
    ground (arith, rest, twice pname 0 c mem)

-- `getFileName` always leaves the empty text as the parent's name, whatever the path, and returns
-- the address of the last '/' of the path, or of its start where it has none.
pub get_file_name-empty :
    (fuel path pname : ℕ) (mem : Memory) (s : List ℕ)
    → length s < fuel
    → HasText mem path s
    → (pname < path) ⊎ (path + length s < pname)
    → get_file_name fuel path pname mem ≡ some (last_slash path path s, put pname 0 mem)
unfolding get_file_name
get_file_name-empty fuel path pname mem s h t apart =
    file_name_loop-last fuel path path pname mem s h t apart
