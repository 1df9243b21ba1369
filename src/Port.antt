-- ===== src/Port.antt =====
-- port.c and port.h: what the kernel writes to the ports of the machine, as a list in time order.
use orcas.Base.{ℕ, List}

-- One `outb`, or one `outsl` of 32-bit words.
pub data Event : Type 0 where
  out_byte : (port val : ℕ) → Event
  out_words : (port : ℕ) → List ℕ → Event

-- PIC_MASTER_CMD, PIC_MASTER_DATA, PIC_SLAVE_CMD, PIC_SLAVE_DATA
abbrev pub pic_master_cmd : ℕ
pic_master_cmd = 0x20

abbrev pub pic_master_data : ℕ
pic_master_data = 0x21

abbrev pub pic_slave_cmd : ℕ
pic_slave_cmd = 0xa0

abbrev pub pic_slave_data : ℕ
pic_slave_data = 0xa1

unfoldable pub outb : (port val : ℕ) → Event
outb port val = out_byte port val

unfoldable pub outsl : (port : ℕ) → List ℕ → Event
outsl port words = out_words port words
