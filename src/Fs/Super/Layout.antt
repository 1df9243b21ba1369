-- ===== src/Fs/Super/Layout.antt =====
-- A superblock that is written is read back.
use orcas.Base.{ℕ, suc, ◌+◌, ◌*◌, ◌/◌, ◌%◌, ◌^◌, ◌<◌, ◌≡◌, refl, ap, ◌∙◌, arith, some, List, ◌∷◌}
use orcas.Fs.Cache.{null, take_hit}
use orcas.Fs.Cache.Disk.{Store, block_write, block_read-hit, buffer_of, IsCached}
use orcas.Fs.Cache.Free.{IsFree}
use orcas.Fs.Cache.Save.{block_write-saves}
use orcas.Fs.Super.{
  Superblock, to_buf, from_buf, read_superblock, write_superblock, layout, disk_layout_init,
}

-- Words of 32 bits.
pub record IsWords (sb : Superblock) : Type 0 where
  pub size_fits : sb.size < 2 ^ 32
  pub device_fits : sb.device < 2 ^ 32
  pub n_log_fits : sb.n_log_block < 2 ^ 32
  pub n_inode_fits : sb.n_inode_block < 2 ^ 32
  pub n_data_fits : sb.n_data_block < 2 ^ 32
  pub log_fits : sb.log_start < 2 ^ 32
  pub inode_fits : sb.inode_start < 2 ^ 32
  pub bitmap_fits : sb.bitmap_start < 2 ^ 32
  pub data_fits : sb.data_start < 2 ^ 32

-- Four bytes of a word, put together again.
joined :
    (w : ℕ)
    → w < 2 ^ 32
    → w / 1 % 256 + w / 256 % 256 * 256 + w / 65536 % 256 * 65536 + w / 16777216 % 256 * 16777216
      ≡ w
joined w h = omega arith

from_buf-to_buf : (sb : Superblock) → IsWords sb → from_buf (to_buf sb) ≡ sb
from_buf-to_buf sb h = λ i. record {
  size = joined sb.size h.size_fits i;
  device = joined sb.device h.device_fits i;
  n_log_block = joined sb.n_log_block h.n_log_fits i;
  n_inode_block = joined sb.n_inode_block h.n_inode_fits i;
  n_data_block = joined sb.n_data_block h.n_data_fits i;
  log_start = joined sb.log_start h.log_fits i;
  inode_start = joined sb.inode_start h.inode_fits i;
  bitmap_start = joined sb.bitmap_start h.bitmap_fits i;
  data_start = joined sb.data_start h.data_fits i;
}

pub read_superblock-hit :
    (fuel : ℕ) (old : Superblock) (s : Store)
    → IsCached 1 s.cache
    → let p = buffer_of 1 s.cache in
      read_superblock (suc fuel) 0 old s
      ≡ some (0, from_buf (s.cache.buf p), record s { cache = take_hit p s.cache })
unfolding read_superblock take_hit
read_superblock-hit fuel old s h = rw (block_read-hit fuel 1 s h) (ground (arith, h.not_null))

-- `readSuperblock` gives back the superblock that `writeSuperblock` has written to drive 0, when
-- block 1 was not in the cache before and a free buffer is left, and the words have 32 bits.
pub read_superblock-write_superblock :
    (fuel x : ℕ) (xs : List ℕ) (sb old : Superblock) (s : Store)
    → IsFree s.cache (x ∷ xs)
    → buffer_of 1 s.cache ≡ null
    → IsWords sb
    → (s1 : Store) × (s2 : Store) × (write_superblock (suc fuel) 0 sb s ≡ some (0, s1))
      × (read_superblock (suc fuel) 0 old s1 ≡ some (0, sb, s2))
unfolding write_superblock
read_superblock-write_superblock fuel x xs sb old s free empty h =
    let (s1, done, _, found, held, same, _) =
      block_write-saves fuel 1 x xs (to_buf sb) s free empty (omega arith) in
    let p = buffer_of 1 s1.cache in
    let got : from_buf (s1.cache.buf p) ≡ sb =
      ap (λ q. from_buf (s1.cache.buf q)) held ∙ ap from_buf same ∙ from_buf-to_buf sb h in
    (
      s1,
      record s1 { cache = take_hit p s1.cache },
      rw done refl,
      read_superblock-hit fuel old s1 found
          ∙ ap (λ r. some (0, r, record s1 { cache = take_hit p s1.cache })) got,
    )

-- diskLayoutInit ends with the superblock written to block 1 and clear bitmaps to blocks 20 and 21,
-- in this order, where each of the three writes ends.
disk_layout_init-writes :
    (fuel size result1 result2 result3 : ℕ) (s s1 s2 s3 : Store)
    → write_superblock fuel 0 (layout size) s ≡ some (result1, s1)
    → block_write fuel 0 20 (λ _. 0) s1 ≡ some (result2, s2)
    → block_write fuel 0 21 (λ _. 0) s2 ≡ some (result3, s3)
    → disk_layout_init fuel size s ≡ some s3
unfolding disk_layout_init
disk_layout_init-writes fuel size result1 result2 result3 s s1 s2 s3 done1 done2 done3 =
    rw (done1, done2, done3) refl
