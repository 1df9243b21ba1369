-- ===== src/Fs.antt =====
-- fs.c: the bitmaps of inodes and data blocks, and the table of open files. The cache of blocks
-- stands behind these: a bitmap is the bytes of its cached block, at the address `buf`. The caller
-- has read the superblock and the block; the child Allocator has the reads and the writes back.
pub mod Bitmap
pub mod Descriptor
pub mod Path
pub mod Cache
pub mod Transfer
pub mod Super
pub mod Inodes
pub mod Directory
pub mod Allocator
pub mod Data
pub mod Calls
mod Tests
use orcas.Base.{
  ℕ, zero, suc, ◌+◌, ◌-◌, ◌*◌, ◌/◌, ◌%◌, ◌^◌, ◌==◌, ltb, gt_int, if◌then◌else◌, u32, ◌>>>◌, bit_and,
  Bool, true, false, Option, none, some, List, [], ◌∷◌, get_or, set,
}
use orcas.Util.{Memory, put, minus_one}

-- The loops that look for a byte 0 in a bitmap, with the rounds left; -1 where there is none.
pub find_zero : (left i buf : ℕ) → Memory → ℕ
find_zero zero i buf mem = minus_one
find_zero (suc left) i buf mem =
    let rest = find_zero left (i + 1) buf mem in if mem (buf + i) == 0 then i else rest

-- `allocInode` up to the inode's number: the byte is set before the number is tested.
pub alloc_ino : (n_inode_block buf : ℕ) → Memory → Option ℕ × Memory
alloc_ino n_inode_block buf mem =
    let ino = find_zero n_inode_block 0 buf mem in
    (if ino == minus_one then none else some ino, put (u32 (buf + ino)) 1 mem)

pub free_inode : (n_inode_block buf ino : ℕ) → Memory → ℕ × Memory
free_inode n_inode_block buf ino mem =
    if gt_int ino n_inode_block then (minus_one, mem) else (0, put (u32 (buf + ino)) 0 mem)

pub alloc_data : (n_data_block data_start buf : ℕ) → Memory → ℕ × Memory
alloc_data n_data_block data_start buf mem =
    let addr = find_zero n_data_block 0 buf mem in
    (u32 (data_start + addr), put (u32 (buf + addr)) 1 mem)

-- `addr` is unsigned here.
pub free_data : (n_data_block buf addr : ℕ) → Memory → ℕ × Memory
free_data n_data_block buf addr mem =
    if ltb n_data_block addr then (minus_one, mem) else (0, put (u32 (buf + addr)) 0 mem)

-- `struct file`; `ind` is the address of the inode.
pub record File : Type 0 where
  pub type : ℕ
  pub off : ℕ
  pub flag : ℕ
  pub ind : ℕ

-- `struct openFile`, with the four words of its bitmap.
pub record OpenFile : Type 0 where
  pub max_fd : ℕ
  pub bitmap : List ℕ
  pub fds : ℕ → File

abbrev pub put_file : ℕ → File → (ℕ → File) → ℕ → File
put_file fd file fds k = if k == fd then file else fds k

-- The inner loop of `open`, which its `break` leaves: the first clear bit from `j`.
clear_bit : (left j word : ℕ) → Option ℕ
clear_bit zero j word = none
clear_bit (suc left) j word =
    let rest = clear_bit left (j + 1) word in if bit_and (word >>> j) 1 == 0 then some j else rest

-- The outer loop, from word `i`: `fd` is what earlier words gave.
word_loop : (left i fd : ℕ) → List ℕ → ℕ
word_loop zero i fd bitmap = fd
word_loop (suc left) i fd bitmap = elim (clear_bit 32 0 (get_or bitmap i 0)) [
  | none ↦ word_loop left (i + 1) fd bitmap
  | some j ↦ word_loop left (i + 1) (i * 4 + j) bitmap
]

pub find_fd : List ℕ → ℕ
find_fd bitmap = word_loop 4 0 minus_one bitmap

-- `open` where `namei` gave the inode `ind`, of type `type`.
pub open_file : (ind type mode : ℕ) → OpenFile → ℕ × OpenFile
open_file ind type mode tbl =
    let fd = find_fd tbl.bitmap in
    (
      fd,
      record tbl {
        max_fd = if gt_int fd tbl.max_fd then fd else tbl.max_fd;
        fds =
            put_file fd (record { type = type; off = 0; flag = u32 mode % 2 ^ 16; ind = ind })
              tbl.fds;
      },
    )

-- Step 5 of `creat`, which leaves the file's type as it was.
pub creat_file : (ind mode : ℕ) → OpenFile → ℕ × OpenFile
creat_file ind mode tbl =
    let fd = tbl.max_fd in
    (
      fd,
      record tbl {
        max_fd = u32 (fd + 1);
        fds =
            put_file fd (record (tbl.fds fd) { off = 0; flag = u32 mode % 2 ^ 16; ind = ind })
              tbl.fds;
      },
    )

-- `BCLR`
abbrev bclr : (x b : ℕ) → ℕ
bclr x b = bit_and x (2 ^ 32 - 1 - 2 ^ b)

-- `close`, for a descriptor from 0 to 15: from 16 on the bit is cleared behind the four words.
pub close : (fd : ℕ) → OpenFile → OpenFile
close fd tbl = record tbl {
  bitmap = set tbl.bitmap (fd / 4) (bclr (get_or tbl.bitmap (fd / 4) 0) (fd % 4));
  fds = put_file fd (record { type = 0; off = 0; flag = 0; ind = 0 }) tbl.fds;
}

-- `eof`; `size` gives the size of the inode at an address, and the comparison is unsigned.
pub eof : (size : ℕ → ℕ) (fd : ℕ) → OpenFile → ℕ
eof size fd tbl = if ltb (tbl.fds fd).off (size (tbl.fds fd).ind) then 0 else 1
