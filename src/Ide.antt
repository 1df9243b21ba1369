-- ===== src/Ide.antt =====
-- ide.c and ide.h: polled reads and writes of a sector. A status read takes the next byte that the
-- drive answers; the messages on the console are left out.
pub mod Disk
pub mod Poll
pub mod Driver
mod Tests
use orcas.Base.{
  ℕ, zero, suc, ◌+◌, ◌-◌, ◌*◌, ◌/◌, ◌%◌, ◌^◌, bit_and, bit_or, Bool, true, false, not, ◌&&◌, ◌||◌,
  ◌==◌, if◌then◌else◌, ◌>>>◌, ◌<<<◌, u8, u32, Option, none, some, List, [], ◌∷◌, ◌++◌,
}
use orcas.Port.{Event, outb, outsl}

abbrev pub ide_data_port : ℕ
ide_data_port = 0x1f0

abbrev pub ide_secnum_port : ℕ
ide_secnum_port = 0x1f2

abbrev pub ide_secno0_port : ℕ
ide_secno0_port = 0x1f3

abbrev pub ide_secno8_port : ℕ
ide_secno8_port = 0x1f4

abbrev pub ide_secno16_port : ℕ
ide_secno16_port = 0x1f5

abbrev pub ide_device_port : ℕ
ide_device_port = 0x1f6

abbrev pub ide_cmd_port : ℕ
ide_cmd_port = 0x1f7

abbrev pub ide_ctl_port : ℕ
ide_ctl_port = 0x3f6

-- IDE_ST_ERR, IDE_ST_DF, IDE_ST_BSY
abbrev ide_st_err : ℕ
ide_st_err = 0x01

abbrev ide_st_df : ℕ
ide_st_df = 0x20

abbrev ide_st_bsy : ℕ
ide_st_bsy = 0x80

abbrev pub ide_cmd_r_pio : ℕ
ide_cmd_r_pio = 0x20

abbrev pub ide_cmd_w_pio : ℕ
ide_cmd_w_pio = 0x30

-- BSIZE, SEC_PER_BLK, B_VALID, and -1 as an `int`
abbrev bsize : ℕ
bsize = 512

abbrev sec_per_blk : ℕ
sec_per_blk = 1

abbrev pub b_valid : ℕ
b_valid = 2

abbrev pub minus_one : ℕ
minus_one = 0xffffffff

-- `struct block` without its links and its lock; `buf` holds bytes.
pub record Block : Type 0 where
  pub flags : ℕ
  pub device : ℕ
  pub block : ℕ
  pub buf : List ℕ

-- `==` and `!=` of C, whose value is an `int`, and an `int` as a condition.
abbrev c_eq : ℕ → ℕ → ℕ
c_eq a b = if a == b then 1 else 0

abbrev c_ne : ℕ → ℕ → ℕ
c_ne a b = if a == b then 0 else 1

abbrev truth : ℕ → Bool
truth n = not (n == 0)

-- `while(cond(state)) state = inb(IDE_CMD_PORT);` on the answers to come; `none` means that the
-- answers end while the loop still waits.
pub poll : (ℕ → Bool) → (state : ℕ) → List ℕ → Option (ℕ × List ℕ)
poll cond state [] = if cond state then none else some (state, [])
poll cond state (x ∷ xs) = if cond state then poll cond x xs else some (state, x ∷ xs)

-- `state & IDE_ST_BSY == IDE_ST_BSY` is `state & (IDE_ST_BSY == IDE_ST_BSY)` in C.
abbrev test_waits : ℕ → Bool
test_waits state =
    truth (bit_and state (c_eq ide_st_bsy ide_st_bsy))
    && truth (bit_and state (c_ne ide_st_err ide_st_err))

pub test_ide_state : List ℕ → Option (ℕ × List ℕ)
unfolding poll
test_ide_state [] = none
test_ide_state (first ∷ answers) = elim (poll test_waits first answers) [
  | none ↦ none
  | some (state, rest) ↦ some (
    (if truth (bit_and state (c_eq ide_st_df ide_st_df))
          || truth (bit_and state (c_eq ide_st_err ide_st_err))
        then minus_one
        else 0),
    rest,
  )
]

-- `insl` and `outsl` move 32-bit words, lowest byte first.
pub to_bytes : List ℕ → List ℕ
to_bytes [] = []
to_bytes (w ∷ ws) = u8 w ∷ u8 (w >>> 8) ∷ u8 (w >>> 16) ∷ u8 (w >>> 24) ∷ to_bytes ws

pub to_words : List ℕ → List ℕ
to_words (a ∷ b ∷ c ∷ d ∷ bs) = (a + b * 2 ^ 8 + c * 2 ^ 16 + d * 2 ^ 24) ∷ to_words bs
to_words _ = []

-- The writes of both transfers up to the command: interrupts on, then the sector's address.
pub select_sector : Block → List Event
select_sector blk =
    let sector = u32 (blk.block * sec_per_blk) in
    outb ide_ctl_port 0
    ∷ outb ide_secnum_port sec_per_blk
    ∷ outb ide_secno0_port (bit_and sector 0xff)
    ∷ outb ide_secno8_port (bit_and (sector >>> 8) 0xff)
    ∷ outb ide_secno16_port (bit_and (sector >>> 16) 0xff)
    ∷ outb ide_device_port
        (bit_or (bit_or 0xe0 (bit_and blk.device 1 <<< 4)) (bit_and (sector >>> 24) 0x0f))
    ∷ []

-- `state & IDE_ST_BSY == IDE_ST_BSY` again; the second operand has its parentheses here.
abbrev read_waits : ℕ → Bool
read_waits state =
    truth (bit_and state (c_eq ide_st_bsy ide_st_bsy))
    && truth (c_ne (bit_and state ide_st_err) ide_st_err)

-- The result, the writes, the block and the answers left. `sector` is what `insl` finds at the
-- data port behind the last status byte: BSIZE / 4 words.
pub hard_read_wait :
    Block → (answers : List ℕ) → (sector : ℕ → List ℕ) → Option (ℕ × List Event × Block × List ℕ)
unfolding poll
hard_read_wait blk [] sector = none
hard_read_wait blk (first ∷ answers) sector =
    let sent = select_sector blk ++ (outb ide_cmd_port ide_cmd_r_pio ∷ []) in
    elim (poll read_waits first answers) [
      | none ↦ none
      | some (state, rest) ↦
          if truth (bit_and state (c_eq ide_st_err ide_st_err))
          then some (minus_one, sent, blk, rest)
          else some (0, sent, record blk { buf = to_bytes (sector state); flags = b_valid }, rest)
    ]

unfoldable pub hard_write : Block → ℕ × List Event × Block
hard_write blk = (
  0,
  select_sector blk
      ++ (outb ide_cmd_port ide_cmd_w_pio ∷ outsl ide_data_port (to_words blk.buf) ∷ []),
  record blk { flags = b_valid },
)
