-- ===== src/Ide/Poll.antt =====
-- How long the polling loops wait.
use orcas.Base.{ℕ, ◌%◌, ◌≡◌, ◌==◌, if◌then◌else◌, some, List, [], ◌∷◌, ◌++◌, arith}
use orcas.Base.Bits.{bit_and-one, bit_and-zero}
use orcas.Port.{outb}
use orcas.Ide.{
  Block, poll, test_ide_state, select_sector, hard_read_wait, to_bytes, minus_one, b_valid,
  ide_cmd_port, ide_cmd_r_pio,
}

-- `hardReadWait` takes one status byte, whatever it is: a drive that is busy is not waited for.
-- With the error bit clear it takes the words at the data port at once, also when the busy bit is
-- set; with the error bit set it fails and leaves the block alone.
pub hard_read_wait-one_answer :
    (blk : Block) (first : ℕ) (answers : List ℕ) (sector : ℕ → List ℕ)
    → let sent = select_sector blk ++ (outb ide_cmd_port ide_cmd_r_pio ∷ []) in
      hard_read_wait blk (first ∷ answers) sector ≡ (
        if first % 2 == 1
        then some (minus_one, sent, blk, answers)
        else some (0, sent, record blk { buf = to_bytes (sector first); flags = b_valid }, answers))
unfolding hard_read_wait poll
hard_read_wait-one_answer blk first [] sector = ground (arith, bit_and-one first)
hard_read_wait-one_answer blk first (x ∷ xs) sector = ground (arith, bit_and-one first)

-- `testIdeState` does not wait either, and reports failure exactly when bit 0 is set.
test_ide_state-one_answer :
    (first : ℕ) (answers : List ℕ)
    → test_ide_state (first ∷ answers) ≡ some ((if first % 2 == 1 then minus_one else 0), answers)
unfolding test_ide_state poll
test_ide_state-one_answer first [] = ground (arith, bit_and-one first, bit_and-zero first)
test_ide_state-one_answer first (x ∷ xs) = ground (arith, bit_and-one first, bit_and-zero first)
