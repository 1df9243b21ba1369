-- ===== src/Fs/Transfer.antt =====
-- `read` and `write` of fs.c on an open file: the table of files, the inodes in their cache, the
-- cache of blocks on its drive, and the memory of the caller. `allocData` is in Fs/Data.
pub mod Chunk
pub mod Write
pub mod Alloc
pub mod Grow
pub mod Bytes
pub mod Append
pub mod Slice
pub mod Contract
pub mod Split
mod Tests
pub mod Read
use orcas.Base.{
  ℕ, zero, suc, ◌+◌, ◌-◌, ◌*◌, ◌/◌, ◌%◌, ◌==◌, ltb, leb, if◌then◌else◌, u32, Option, none, some,
}
use orcas.Util.{Memory, minus_one}
use orcas.Fs.{File, OpenFile, put_file}
use orcas.Fs.Super.{Superblock}
use orcas.Fs.Data.{alloc_data_on}
use orcas.Fs.Cache.Disk.{Store, block_read, block_write, copy, ◌>>=◌}

-- The part of `struct inode` that transfers use; `block k` is `dinode.block[k]`.
pub record Inode : Type 0 where
  pub size : ℕ
  pub block : ℕ → ℕ

-- `stray` and `sb` are the locals of `allocData`: the address of its `db`, and what its superblock
-- holds before it is read.
pub record Files : Type 0 where
  pub tbl : OpenFile
  pub inode : ℕ → Inode
  pub store : Store
  pub stray : ℕ
  pub sb : Superblock
  pub mem : Memory

abbrev pub bsize : ℕ
bsize = 512

abbrev pub ndata : ℕ
ndata = 64

-- The blocks that a transfer of `size` bytes reaches behind its first one: `na` and `nr`.
abbrev pub further : (off size : ℕ) → ℕ
further off size = if ltb (bsize - off) size then (size - (bsize - off)) / bsize + 1 else 0

-- The bytes that it moves in the first one.
abbrev pub in_first : (off size : ℕ) → ℕ
in_first off size = if ltb (bsize - off) size then bsize - off else size

-- The loop of `write` that allocates, with the rounds left.
pub alloc_blocks :
    (left fuel i cur stray : ℕ) → Superblock → (block : ℕ → ℕ) → Store → Option ((ℕ → ℕ) × Store)
alloc_blocks zero fuel i cur stray sb block s = some (block, s)
alloc_blocks (suc left) fuel i cur stray sb block s = do
  got ← alloc_data_on fuel 0 stray sb s
  alloc_blocks left fuel (i + 1) cur stray sb (λ k. if k == cur + i then got.0 else block k) got.1

-- `db = blockRead(0, b); memmove(db->buf + off, pb, cnt); blockWrite(db);`
pub write_chunk : (fuel b off pb cnt : ℕ) → Memory → Store → Option Store
write_chunk fuel b off pb cnt mem s = do
  got ← block_read fuel 0 b s
  let p = got.0
  let c = got.1.cache
  let filled = record c { buf = λ q. if q == p then copy off pb cnt mem (c.buf p) else c.buf q }
  done ← block_write fuel (c.device p) (c.block p) (filled.buf p) (record got.1 { cache = filled })
  some done.1

-- The loop of `write` over the whole blocks in the middle.
pub write_mid : (left fuel i cur pb : ℕ) → (block : ℕ → ℕ) → Memory → Store → Option Store
write_mid zero fuel i cur pb block mem s = some s
write_mid (suc left) fuel i cur pb block mem s = do
  s1 ← write_chunk fuel (block (cur + i)) 0 pb bsize mem s
  write_mid left fuel (i + 1) cur (pb + bsize) block mem s1

-- The part of `write` that fills the blocks.
pub write_blocks : (fuel cur off buf size : ℕ) → (block : ℕ → ℕ) → Memory → Store → Option Store
write_blocks fuel cur off buf size block mem s = do
  let na = further off size
  let pb = buf + in_first off size
  s1 ← write_chunk fuel (block cur) off buf (in_first off size) mem s
  s2 ← write_mid (na - 1) fuel 1 cur pb block mem s1
  let rest = (size - (bsize - off)) % bsize
  if na == 0
      then some s2
      else write_chunk fuel (block (cur + na)) 0 (pb + bsize * (na - 1)) rest mem s2

abbrev pub put_inode : ℕ → Inode → (ℕ → Inode) → ℕ → Inode
put_inode a i inode b = if b == a then i else inode b

-- The result and the state; `none` only where the fuel runs out in a chain of the cache, or where
-- the drive answers no more.
pub write : (fuel fd buf size : ℕ) → Files → Option (ℕ × Files)
write fuel fd buf size f =
    let a = (f.tbl.fds fd).ind in
    let ind = f.inode a in
    let cur = ind.size / bsize in
    let off = ind.size % bsize in
    let na = further off size in
    let done = do
      grown ← alloc_blocks na fuel 1 cur f.stray f.sb ind.block f.store
      s ← write_blocks fuel cur off buf size grown.0 f.mem grown.1
      some (
        size,
        record f {
          inode = put_inode a (record { size = u32 (ind.size + size); block = grown.0 }) f.inode;
          store = s;
        },
      )
    in if a == 0
      then some (minus_one, f)
      else if leb ndata (cur + na)
      then some (minus_one, f)
      else done

-- `db = blockRead(0, b); memmove(pb, db->buf + off, cnt);`, on the memory and the store.
pub read_chunk : (fuel b off pb cnt : ℕ) → Memory → Store → Option (Memory × Store)
read_chunk fuel b off pb cnt mem s = do
  got ← block_read fuel 0 b s
  some (copy pb off cnt (got.1.cache.buf got.0) mem, got.1)

pub read_mid : (left fuel i cur pb : ℕ) → (block : ℕ → ℕ) → Memory → Store → Option (Memory × Store)
read_mid zero fuel i cur pb block mem s = some (mem, s)
read_mid (suc left) fuel i cur pb block mem s = do
  r ← read_chunk fuel (block (cur + i)) 0 pb bsize mem s
  read_mid left fuel (i + 1) cur (pb + bsize) block r.0 r.1

pub read_blocks :
    (fuel cur off buf size : ℕ) → (block : ℕ → ℕ) → Memory → Store → Option (Memory × Store)
read_blocks fuel cur off buf size block mem s = do
  let nr = further off size
  let pb = buf + in_first off size
  r1 ← read_chunk fuel (block cur) off buf (in_first off size) mem s
  r2 ← read_mid (nr - 1) fuel 1 cur pb block r1.0 r1.1
  let rest = (size - (bsize - off)) % bsize
  if nr == 0
      then some r2
      else read_chunk fuel (block (cur + nr)) 0 (pb + bsize * (nr - 1)) rest r2.0 r2.1

-- For an offset below 2^31, which `int start` takes as it is.
pub read : (fuel fd buf size : ℕ) → Files → Option (ℕ × Files)
read fuel fd buf size f =
    let file = f.tbl.fds fd in
    let ind = f.inode file.ind in
    let start = file.off in
    let done = do
      r ← read_blocks fuel (start / bsize) (start % bsize) buf size ind.block f.mem f.store
      let after = put_file fd (record file { off = u32 (start + size) }) f.tbl.fds
      some (size, record f { tbl = record f.tbl { fds = after }; mem = r.0; store = r.1 })
    in if file.ind == 0
      then some (minus_one, f)
      else if ltb ind.size (u32 (start + size))
      then some (minus_one, f)
      else done
