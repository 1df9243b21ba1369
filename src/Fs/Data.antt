-- ===== src/Fs/Data.antt =====
-- allocData of fs.c on the cache of blocks.
pub mod Warm
use orcas.Base.{ℕ, ◌+◌, ◌==◌, if◌then◌else◌, Option, some}
use orcas.Util.{Memory}
use orcas.Fs.{alloc_data}
use orcas.Fs.Cache.{rel_cached_block}
use orcas.Fs.Cache.Disk.{Store, block_read, block_write, ◌>>=◌}
use orcas.Fs.Super.{Superblock, read_superblock}

-- The store with other bytes in the buffer `p`.
abbrev pub with_buf : (p : ℕ) → Memory → Store → Store
with_buf p buf s = record s {
  cache = record s.cache { buf = λ q. if q == p then buf else s.cache.buf q };
}

-- `blockWrite` of the buffer `p` of the cache.
unfoldable pub write_back : (fuel p : ℕ) → Store → Option (ℕ × Store)
write_back fuel p s = block_write fuel (s.cache.device p) (s.cache.block p) (s.cache.buf p) s

-- `sb0` is what stands in the local superblock, and `stray` the node at the address of the local
-- pointer `db`: that address, not the buffer's, is what the call releases.
unfoldable pub alloc_data_on : (fuel device stray : ℕ) → Superblock → Store → Option (ℕ × Store)
alloc_data_on fuel device stray sb0 s = do
  head ← read_superblock fuel device sb0 s
  let (result, sb, s1) = head
  db ← block_read fuel device (sb.bitmap_start + 1) s1
  let (p, s2) = db
  let (addr, marked) = alloc_data sb.n_data_block sb.data_start 0 (s2.cache.buf p)
  saved ← write_back fuel p (with_buf p marked s2)
  c ← rel_cached_block fuel stray saved.1.cache
  some (addr, record saved.1 { cache = c })
