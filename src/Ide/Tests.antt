-- ===== src/Ide/Tests.antt =====
-- Transfers of sector 5 of drive 1.
use orcas.Base.{true, ℕ, zero, suc, ◌≡◌, refl, arith, [], ◌∷◌, ◌++◌, replicate, some}
use orcas.Port.{outb}
use orcas.Ide.{
  Block, select_sector, hard_write, hard_read_wait, to_words, to_bytes, ide_cmd_port, ide_cmd_r_pio,
  b_valid,
}
use orcas.Ide.Poll.{hard_read_wait-one_answer}
use orcas.Ide.Disk.{Drive, run, data_words, AreBytes, hard_write-sectors, hard_read_wait-hard_write}

abbrev sevens : Block
sevens = record { flags = 0; device = 1; block = 5; buf = replicate 512 7 }

abbrev blank : Block
blank = record { flags = 0; device = 1; block = 5; buf = [] }

abbrev idle : Drive
idle = record {
  lba0 = 0;
  lba8 = 0;
  lba16 = 0;
  select = 0;
  command = 0;
  sectors = λ _ _. [];
  asks = true;
  floating = [];
}

AreBytes-replicate : (n : ℕ) → AreBytes (replicate n 7)
AreBytes-replicate zero = tt
AreBytes-replicate (suc n) = (omega arith, AreBytes-replicate n)

hard_write-sectors_test : (run (hard_write sevens).1 idle).sectors 1 5 ≡ to_words (replicate 512 7)
hard_write-sectors_test = hard_write-sectors sevens idle 1 5 (omega arith)

hard_read_wait-hard_write_example :
    let d1 = run (hard_write sevens).1 idle in
    let sent = select_sector blank ++ (outb ide_cmd_port ide_cmd_r_pio ∷ []) in
    hard_read_wait blank (0x58 ∷ []) (data_words (run sent d1))
    ≡ some (0, sent, record blank { buf = replicate 512 7; flags = b_valid }, [])
hard_read_wait-hard_write_example =
    hard_read_wait-hard_write sevens blank idle 0x58 [] (omega arith) refl refl refl
      (AreBytes-replicate 512) refl refl refl refl

hard_read_wait-one_answer_test :
    let sent = select_sector blank ++ (outb ide_cmd_port ide_cmd_r_pio ∷ []) in
    hard_read_wait blank (0x80 ∷ []) (λ _. 0 ∷ [])
    ≡ some (0, sent, record blank { buf = to_bytes (0 ∷ []); flags = b_valid }, [])
hard_read_wait-one_answer_test = hard_read_wait-one_answer blank 0x80 [] (λ _. 0 ∷ [])
