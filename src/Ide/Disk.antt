-- ===== src/Ide/Disk.antt =====
-- A drive for polled transfers, which moves data only where its status says so, and what the two
-- transfers do on it.
use mathlib.Core.Path.{◌∙◌}
use orcas.Base.{
  ℕ, zero, suc, ◌+◌, ◌*◌, ◌/◌, ◌%◌, ◌^◌, ◌<◌, ◌≡◌, refl, ap, bit_and, bit_or, ◌==◌, ◌&&◌,
  if◌then◌else◌, Bool, true, some, List, [], ◌∷◌, ◌++◌, arith, length,
}
use orcas.Base.Bits.{bit_and-one, bit_and-ones, bit_or-fields}
use orcas.Port.{Event, out_byte, out_words, outb, outsl}
use orcas.Ide.{
  Block, select_sector, hard_write, hard_read_wait, to_bytes, to_words, ide_data_port,
  ide_secno0_port, ide_secno8_port, ide_secno16_port, ide_device_port, ide_cmd_port, ide_cmd_w_pio,
  ide_cmd_r_pio, b_valid,
}
use orcas.Ide.Poll.{hard_read_wait-one_answer}

-- The registers of the controller, the last command, and the sectors of each drive. `asks` tells
-- whether the drive is ready and requests data when the words of a write arrive, and `floating` is
-- what the data port gives when the drive has no data.
pub record Drive : Type 0 where
  pub lba0 : ℕ
  pub lba8 : ℕ
  pub lba16 : ℕ
  pub select : ℕ
  pub command : ℕ
  pub sectors : ℕ → ℕ → List ℕ
  pub asks : Bool
  pub floating : List ℕ

-- Bit 4 of the device register chooses the drive, its low four bits are bits 24-27 of the address.
abbrev drive : Drive → ℕ
drive d = d.select / 16 % 2

abbrev lba : Drive → ℕ
lba d = d.lba0 + d.lba8 * 2 ^ 8 + d.lba16 * 2 ^ 16 + d.select % 16 * 2 ^ 24

abbrev receive : Event → Drive → Drive
receive (out_byte p v) d =
    if p == ide_secno0_port
    then record d { lba0 = v }
    else if p == ide_secno8_port
    then record d { lba8 = v }
    else if p == ide_secno16_port
    then record d { lba16 = v }
    else if p == ide_device_port
    then record d { select = v }
    else if p == ide_cmd_port
    then record d { command = v }
    else d
receive (out_words p ws) d =
    if p == ide_data_port && d.command == ide_cmd_w_pio && d.asks
    then record d { sectors = λ n s. if n == drive d && s == lba d then ws else d.sectors n s }
    else d

pub run : List Event → Drive → Drive
run [] d = d
run (e ∷ es) d = run es (receive e d)

-- A status with BSY (bit 7) clear and DRQ (bit 3) set.
abbrev pub offers : (status : ℕ) → Bool
offers status = status / 2 ^ 7 % 2 == 0 && status / 2 ^ 3 % 2 == 1

-- The words at the data port of a drive whose last status byte is this: those of the sector only
-- if it was told to read and has data.
abbrev pub data_words : Drive → (status : ℕ) → List ℕ
data_words d status =
    if d.command == ide_cmd_r_pio && offers status then d.sectors (drive d) (lba d) else d.floating

device_byte :
    (block device : ℕ)
    → bit_or (bit_or 0xe0 (bit_and device 1 * 2 ^ 4)) (bit_and (block / 2 ^ 24) 0x0f)
      ≡ 0xe0 + device % 2 * 16 + block / 2 ^ 24 % 16
device_byte block device = ground (
  arith,
  bit_and-one device,
  bit_and-ones 4 (block / 2 ^ 24),
  bit_or-fields 5 7 (device % 2 * 16),
  bit_or-fields 4 (14 + device % 2) (block / 2 ^ 24 % 16),
)

-- The drive after the address is sent: drive and sector of the block.
selected :
    (blk : Block) (d : Drive) (c : ℕ) (es : List Event)
    → blk.block < 2 ^ 28
    → run (select_sector blk ++ (outb ide_cmd_port c ∷ es)) d
      ≡ run es (record {
        lba0 = blk.block % 2 ^ 8;
        lba8 = blk.block / 2 ^ 8 % 2 ^ 8;
        lba16 = blk.block / 2 ^ 16 % 2 ^ 8;
        select = 0xe0 + blk.device % 2 * 16 + blk.block / 2 ^ 24;
        command = c;
        sectors = d.sectors;
        asks = d.asks;
        floating = d.floating;
      })
unfolding run select_sector outb
selected blk d c es h =
    let s : ℕ = blk.block * 1 % 2 ^ 32 in
    let e : s ≡ blk.block = omega arith in
    ap (run es) (
      ground (
        arith,
        e,
        bit_and-ones 8 s,
        bit_and-ones 8 (s / 2 ^ 8),
        bit_and-ones 8 (s / 2 ^ 16),
        device_byte s blk.device,
      ))

-- A block in reach of 28-bit addresses is written to its own sector of its own drive, and to no
-- other, if the drive asks for data when the words arrive; otherwise no sector changes.
pub hard_write-sectors :
    (blk : Block) (d : Drive) (n s : ℕ)
    → blk.block < 2 ^ 28
    → (run (hard_write blk).1 d).sectors n s ≡ (
        if d.asks && (n == blk.device % 2 && s == blk.block)
        then to_words blk.buf
        else d.sectors n s)
unfolding hard_write run outsl
hard_write-sectors blk d n s h =
    rw (selected blk d ide_cmd_w_pio (out_words ide_data_port (to_words blk.buf) ∷ []) h)
      (ground arith)

-- What a read finds at the data port is the sector of the block.
pub select_sector-data :
    (blk : Block) (d : Drive) (status : ℕ)
    → blk.block < 2 ^ 28
    → status / 2 ^ 7 % 2 ≡ 0
    → status / 2 ^ 3 % 2 ≡ 1
    → data_words (run (select_sector blk ++ (outb ide_cmd_port ide_cmd_r_pio ∷ [])) d) status
      ≡ d.sectors (blk.device % 2) blk.block
unfolding run
select_sector-data blk d status h ready request =
    rw (selected blk d ide_cmd_r_pio [] h) (ground arith)

-- `n` groups of four bytes.
abbrev pub AreBytes : List ℕ → Type 0
AreBytes [] = Unit {0}
AreBytes (b ∷ bs) = (b < 256) × AreBytes bs

to_bytes-to_words :
    (n : ℕ) (bs : List ℕ) → length bs ≡ 4 * n → AreBytes bs → to_bytes (to_words bs) ≡ bs
unfolding to_bytes to_words
to_bytes-to_words zero [] e h = refl
to_bytes-to_words zero (a ∷ bs) e h = absurd (omega arith)
to_bytes-to_words (suc n) [] e h = refl
to_bytes-to_words (suc n) (a ∷ []) e h = absurd (omega arith)
to_bytes-to_words (suc n) (a ∷ b ∷ []) e h = absurd (omega arith)
to_bytes-to_words (suc n) (a ∷ b ∷ c ∷ []) e h = absurd (omega arith)
to_bytes-to_words (suc n) (a ∷ b ∷ c ∷ x ∷ bs) e h = ground (arith, to_bytes-to_words n bs)

-- Reading a sector that was written gives the bytes back: after `hardWrite` of a block of 512
-- bytes, below 2^28, to a drive that asks for data when the words arrive, `hardReadWait` into any
-- block of the same drive and sector returns 0 and those bytes, if the first status byte has BSY
-- clear, DRQ set and ERR clear. The code waits for none of these.
pub hard_read_wait-hard_write :
    (blk into : Block) (d : Drive) (first : ℕ) (answers : List ℕ)
    → blk.block < 2 ^ 28
    → into.block ≡ blk.block
    → into.device ≡ blk.device
    → length blk.buf ≡ 512
    → AreBytes blk.buf
    → d.asks ≡ true
    → first / 2 ^ 7 % 2 ≡ 0
    → first / 2 ^ 3 % 2 ≡ 1
    → first % 2 ≡ 0
    → let d1 = run (hard_write blk).1 d in
      let sent = select_sector into ++ (outb ide_cmd_port ide_cmd_r_pio ∷ []) in
      hard_read_wait into (first ∷ answers) (data_words (run sent d1))
      ≡ some (0, sent, record into { buf = blk.buf; flags = b_valid }, answers)
hard_read_wait-hard_write blk into d first answers h same_block same_device len bytes asked ready
      request clear =
    let d1 = run (hard_write blk).1 d in
    let sent = select_sector into ++ (outb ide_cmd_port ide_cmd_r_pio ∷ []) in
    let found : data_words (run sent d1) first ≡ to_words blk.buf =
      select_sector-data into d1 first (omega arith) ready request
      ∙ ground (arith, hard_write-sectors blk d (into.device % 2) into.block h) in
    let back : to_bytes (data_words (run sent d1) first) ≡ blk.buf =
      ap to_bytes found ∙ to_bytes-to_words 128 blk.buf len bytes in
    hard_read_wait-one_answer into first answers (data_words (run sent d1)) ∙ ground (arith, back)
