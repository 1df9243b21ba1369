-- ===== src/Fs/Super.antt =====
-- readSuperblock, writeSuperblock and diskLayoutInit of fs.c, on the cache of blocks and its drive.
-- A superblock is nine words of four bytes, the lowest byte first, at the start of block 1.
pub mod Layout
mod Tests
use orcas.Base.{
  ℕ, zero, suc, ◌+◌, ◌*◌, ◌/◌, ◌%◌, ◌^◌, ◌==◌, ltb, if◌then◌else◌, Option, none, some, List, [],
  ◌∷◌, get_or,
}
use orcas.Util.{Memory, minus_one}
use orcas.Fs.Cache.{null}
use orcas.Fs.Cache.Disk.{Store, block_read, block_write, ◌>>=◌}

pub record Superblock : Type 0 where
  pub size : ℕ
  pub device : ℕ
  pub n_log_block : ℕ
  pub n_inode_block : ℕ
  pub n_data_block : ℕ
  pub log_start : ℕ
  pub inode_start : ℕ
  pub bitmap_start : ℕ
  pub data_start : ℕ

abbrev pub sizeof_superblock : ℕ
sizeof_superblock = 36

abbrev pub words : Superblock → List ℕ
words sb =
    sb.size ∷ sb.device ∷ sb.n_log_block ∷ sb.n_inode_block ∷ sb.n_data_block ∷ sb.log_start
    ∷ sb.inode_start ∷ sb.bitmap_start ∷ sb.data_start ∷ []

-- The block's bytes after `memset` and `memmove(blk.buf, sb, sizeof(struct superblock))`.
abbrev pub to_buf : Superblock → Memory
to_buf sb a =
    if ltb a sizeof_superblock then get_or (words sb) (a / 4) 0 / 256 ^ (a % 4) % 256 else 0

abbrev pub word_at : Memory → (offset : ℕ) → ℕ
word_at buf o = buf o + buf (o + 1) * 256 + buf (o + 2) * 256 ^ 2 + buf (o + 3) * 256 ^ 3

-- `memmove(sb, blk->buf, sizeof(struct superblock))`
abbrev pub from_buf : Memory → Superblock
from_buf buf = record {
  size = word_at buf 0;
  device = word_at buf 4;
  n_log_block = word_at buf 8;
  n_inode_block = word_at buf 12;
  n_data_block = word_at buf 16;
  log_start = word_at buf 20;
  inode_start = word_at buf 24;
  bitmap_start = word_at buf 28;
  data_start = word_at buf 32;
}

-- The result, the superblock that `*sb` becomes, and the store.
pub read_superblock : (fuel device : ℕ) → Superblock → Store → Option (ℕ × Superblock × Store)
read_superblock fuel device sb s = do
  got ← block_read fuel device 1 s
  if got.0 == null
      then some (minus_one, sb, got.1)
      else some (0, from_buf (got.1.cache.buf got.0), got.1)

pub write_superblock : (fuel device : ℕ) → Superblock → Store → Option (ℕ × Store)
write_superblock fuel device sb s = do
  done ← block_write fuel device 1 (to_buf sb) s
  some (if done.0 == 0 then 0 else minus_one, done.1)

-- What diskLayoutInit sets; `size` keeps what stood on the stack.
abbrev pub layout : (size : ℕ) → Superblock
layout size = record {
  size = size;
  device = 0;
  n_log_block = 10;
  n_inode_block = 10;
  n_data_block = 10;
  log_start = 3;
  inode_start = 10;
  bitmap_start = 20;
  data_start = 23;
}

-- The superblock, and the two bitmaps behind each other, all clear.
pub disk_layout_init : (fuel size : ℕ) → Store → Option Store
disk_layout_init fuel size s = do
  let sb = layout size
  written ← write_superblock fuel sb.device sb s
  inodes ← block_write fuel sb.device sb.bitmap_start (λ _. 0) written.1
  data_blocks ← block_write fuel sb.device (sb.bitmap_start + 1) (λ _. 0) inodes.1
  some data_blocks.1
