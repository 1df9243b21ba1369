-- ===== src/Keyboard.antt =====
-- keyboard.c and keyboard.h: the key map, the line that is typed, and its command. The bytes of
-- `line`, `cmd` and `arg` stand in memory; the commands are run in the child Shell.
pub mod Typing
pub mod Parse
pub mod Controller
pub mod Shell
mod Tests
use orcas.Base.{
  ℕ, zero, suc, ◌+◌, ◌-◌, ◌*◌, ◌%◌, ◌^◌, ◌==◌, ltb, leb, if◌then◌else◌, ◌&&◌, ◌||◌, u32, Bool, true,
  false, not, Option, none, some, List, [], ◌∷◌, get_or,
}
use orcas.Util.{Memory, put, strcmp}

-- The first 84 entries of `keymap`, by the characters' codes.
abbrev keymap_head : List ℕ
keymap_head =
    0 ∷ 0x1b ∷ 49 ∷ 50 ∷ 51 ∷ 52 ∷ 53 ∷ 54 ∷ 55 ∷ 56 ∷ 57 ∷ 48 ∷ 45 ∷ 61 ∷ 8 ∷ 9 ∷ 113 ∷ 119 ∷ 101
    ∷ 114 ∷ 116 ∷ 121 ∷ 117 ∷ 105 ∷ 111 ∷ 112 ∷ 91 ∷ 93 ∷ 10 ∷ 0 ∷ 97 ∷ 115 ∷ 100 ∷ 102 ∷ 103 ∷ 104
    ∷ 106 ∷ 107 ∷ 108 ∷ 59 ∷ 39 ∷ 96 ∷ 0 ∷ 92 ∷ 122 ∷ 120 ∷ 99 ∷ 118 ∷ 98 ∷ 110 ∷ 109 ∷ 44 ∷ 46 ∷ 47
    ∷ 0 ∷ 42 ∷ 0 ∷ 32 ∷ 0 ∷ 0 ∷ 0 ∷ 0 ∷ 0 ∷ 0 ∷ 0 ∷ 0 ∷ 0 ∷ 0 ∷ 0 ∷ 0 ∷ 0 ∷ 55 ∷ 56 ∷ 57 ∷ 45 ∷ 52
    ∷ 53 ∷ 54 ∷ 43 ∷ 49 ∷ 50 ∷ 51 ∷ 48 ∷ 46 ∷ []

-- `keymap[key]` for a key without its top bit; the named entries of the map lie above these.
pub keymap : ℕ → ℕ
keymap key = get_or keymap_head key 0

-- `*pl == ' ' || *pl == '\0' || *pl == '\b'|| *pl == '\t'`
abbrev pub is_blank : ℕ → Bool
is_blank c = c == 32 || c == 0 || c == 8 || c == 9

skip_blanks : (fuel pl : ℕ) → Memory → Option ℕ
skip_blanks zero pl mem = none
skip_blanks (suc fuel) pl mem = elim (is_blank (mem pl)) [
  | true ↦ skip_blanks fuel (pl + 1) mem
  | false ↦ some pl
]

-- The second `while` of `parseCmd` and the store behind it. The byte behind a space is copied
-- untested.
copy_loop : (fuel pl p arg : ℕ) → Memory → Option Memory
copy_loop zero pl p arg mem = none
copy_loop (suc fuel) pl p arg mem = elim (mem pl == 0) [
  | true ↦ some (put p 0 mem)
  | false ↦ elim (mem pl == 32) [
    | true ↦
        let ended = put p 0 mem in
        copy_loop fuel (pl + 2) (arg + 1) arg (put arg (ended (pl + 1)) ended)
    | false ↦ copy_loop fuel (pl + 1) (p + 1) arg (put p (mem pl) mem)
  ]
]

pub parse_cmd : (fuel line cmd arg : ℕ) → Memory → Option Memory
parse_cmd fuel line cmd arg mem = elim (skip_blanks fuel line mem) [
  | none ↦ none
  | some pl ↦ copy_loop fuel pl cmd arg mem
]

-- The characters that are typed into the line.
abbrev pub is_typed : ℕ → Bool
is_typed c = (leb 97 c && leb c 122) || (leb 48 c && leb c 57) || c == 32

-- What a key does on the console.
pub data Echo : Type 0 where
  nothing : Echo
  show : ℕ → Echo
  erase : Echo
  enter : Echo

-- `pos` is an `int` as its 32 bits.
pub record Line : Type 0 where
  pub pos : ℕ
  pub mem : Memory

-- `kbdInterruptHandler` for the byte `key` from `getc`, up to the command that a new line runs:
-- `line` is the array's address, and `line[pos]` wraps with the address space.
pub press : (line key : ℕ) → Line → Echo × Line
press line key l =
    let c = keymap key in
    if leb 128 key
    then (nothing, l)
    else if is_typed c
    then (show c, record { pos = u32 (l.pos + 1); mem = put (u32 (line + l.pos)) c l.mem })
    else if c == 8
    then (erase, record l { pos = u32 (l.pos + 0xffffffff) })
    else if c == 10
    then (
      enter,
      record {
        pos = 0;
        mem = if ltb 0 l.pos && ltb l.pos (2 ^ 31) then put (u32 (line + l.pos)) 0 l.mem else l.mem;
      },
    )
    else (nothing, l)

pub data Command : Type 0 where
  list change_dir make_dir not_found : Command

-- The chain of `strcmp`s on the parsed command; the constants are the addresses of "ls", "cd" and
-- "mkdir".
pub command : (fuel cmd ls cd mkdir : ℕ) → Memory → Option Command
command fuel cmd ls cd mkdir mem = elim (strcmp fuel cmd ls mem) [
  | none ↦ none
  | some zero ↦ some list
  | some (suc _) ↦ elim (strcmp fuel cmd cd mem) [
    | none ↦ none
    | some zero ↦ some change_dir
    | some (suc _) ↦ elim (strcmp fuel cmd mkdir mem) [
      | none ↦ none
      | some r ↦ some (if r == 0 then make_dir else not_found)
    ]
  ]
]
