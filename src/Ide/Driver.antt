-- ===== src/Ide/Driver.antt =====
-- `hardDriverInit` of ide.c: the probe of the first drive. The set-up of the wait queue's links is
-- left out.
mod Tests
use orcas.Base.{
  ℕ, bit_and, Bool, true, false, not, ◌&&◌, ◌==◌, if◌then◌else◌, Option, none, some, List, [], ◌∷◌,
  ◌++◌,
}
use orcas.Port.{Event, outb}
use orcas.Ide.{
  ide_device_port, ide_ctl_port, ide_secnum_port, ide_secno0_port, ide_secno8_port,
  ide_secno16_port, ide_cmd_port, minus_one, poll, test_ide_state,
}

abbrev pub probe : List Event
probe = outb ide_device_port 0xa0 ∷ outb ide_ctl_port 0 ∷ outb ide_device_port 0xa0 ∷ []

abbrev pub identify : List Event
identify =
    outb ide_device_port 0xa0
    ∷ outb ide_secnum_port 0
    ∷ outb ide_secno0_port 0
    ∷ outb ide_secno8_port 0
    ∷ outb ide_secno16_port 0
    ∷ outb ide_cmd_port 0xec
    ∷ []

-- `(state & 0x80) == 0x80 && (state & 0x01) != 0x01`, with its parentheses.
abbrev init_waits : ℕ → Bool
init_waits state = bit_and state 0x80 == 0x80 && not (bit_and state 0x01 == 0x01)

-- From the answer to the identify command on.
pub await_identify : List ℕ → Option (ℕ × List ℕ)
await_identify [] = none
await_identify (first ∷ answers) =
    let waited = poll init_waits first answers in
    if first == 0 then some (minus_one, answers) else elim waited [
      | none ↦ none
      | some (state, rest) ↦ some ((if bit_and state 0x01 == 0 then 0 else minus_one), rest)
    ]

-- The result, the writes and the answers left; `none` where the answers end too soon.
pub hard_driver_init : List ℕ → Option (ℕ × List Event × List ℕ)
unfolding await_identify
hard_driver_init answers = elim (test_ide_state answers) [
  | none ↦ none
  | some (result, []) ↦ if result == minus_one then some (minus_one, [], []) else none
  | some (result, present ∷ rest) ↦
      if result == minus_one
      then some (minus_one, [], present ∷ rest)
      else if present == 0xff
      then some (minus_one, probe, rest)
      else elim (await_identify rest) [
        | none ↦ none
        | some (identified, left) ↦ some (identified, probe ++ identify, left)
      ]
]
