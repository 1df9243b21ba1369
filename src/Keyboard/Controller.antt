-- ===== src/Keyboard/Controller.antt =====
-- `kbdDriverInit`, `getc` and `gets` of keyboard.c, on the bytes that the ports answer in time order.
mod Tests
use orcas.Base.{
  ℕ, zero, suc, ◌+◌, bit_and, bit_or, ◌==◌, if◌then◌else◌, u8, Option, none, some, true, false,
  List, [], ◌∷◌,
}
use orcas.Port.{Event, outb}
use orcas.Util.{Memory, put, minus_one}

abbrev pub kbd_data_port : ℕ
kbd_data_port = 0x60

abbrev pub kbd_cmd_port : ℕ
kbd_cmd_port = 0x64

abbrev kbd_data_inbuf : ℕ
kbd_data_inbuf = 0x01

-- The `while` of `kbdDriverInit`: a status, and a byte that is dropped where there is one. `none`
-- means that the answers end in it.
pub drain : List ℕ → Option (List ℕ)
drain [] = none
drain (state ∷ []) = if bit_and state kbd_data_inbuf == 0 then some [] else none
drain (state ∷ dropped ∷ rest) =
    let later = drain rest in
    if bit_and state kbd_data_inbuf == 0 then some (dropped ∷ rest) else later

-- The writes behind it, where the controller answers `command_byte`.
pub enable : (command_byte : ℕ) → List Event
enable command_byte =
    outb kbd_cmd_port 0xae
    ∷ outb kbd_cmd_port 0x20
    ∷ outb kbd_cmd_port 0x60
    ∷ outb kbd_data_port (bit_and (bit_or command_byte 1) 0xef)
    ∷ outb kbd_data_port 0xf4
    ∷ []

pub kbd_driver_init : List ℕ → Option (List Event)
kbd_driver_init answers = elim (drain answers) [
  | none ↦ none
  | some [] ↦ none
  | some (command_byte ∷ _) ↦ some (enable command_byte)
]

-- The `int` that is returned, and the answers left.
pub getc : List ℕ → Option (ℕ × List ℕ)
getc [] = none
getc (state ∷ rest) =
    if bit_and state kbd_data_inbuf == 0
    then some (minus_one, rest)
    else elim rest [ [] ↦ none | data' ∷ left ↦ some (data', left) ]

-- The loop of `gets`, which stores the -1 of an empty buffer like any other `char`; `len` is
-- `p - str`.
pub gets_loop : (fuel p len : ℕ) → List ℕ → Memory → Option (ℕ × Memory)
gets_loop zero p len answers mem = none
gets_loop (suc fuel) p len answers mem = elim (getc answers) [
  | none ↦ none
  | some (c, rest) ↦ elim (u8 c == 10) [
    | true ↦ some (len, put p 0 mem)
    | false ↦ gets_loop fuel (p + 1) (len + 1) rest (put p (u8 c) mem)
  ]
]

pub gets : (fuel str : ℕ) → List ℕ → Memory → Option (ℕ × Memory)
unfolding gets_loop
gets fuel str answers mem = gets_loop fuel str 0 answers mem
