-- ===== src/Fs/Allocator.antt =====
-- allocInode, freeInode and freeData of fs.c on the cache of blocks, and the objects in
-- memory that they and the calls above them use.
use orcas.Base.{ℕ, ◌+◌, ◌*◌, ◌/◌, ◌%◌, ◌==◌, ◌&&◌, leb, ltb, if◌then◌else◌, u32, Option, none, some}
use orcas.Util.{Memory}
use orcas.Fs.{alloc_ino, free_inode, free_data}
use orcas.Fs.Data.{with_buf, write_back}
use orcas.Fs.Cache.{null, rel_cached_block}
use orcas.Fs.Cache.Disk.{Store, block_read, block_write, ◌>>=◌}
use orcas.Fs.Super.{Superblock, read_superblock}
use orcas.Fs.Inodes.{new_inode}
use orcas.Fs.Directory.{Tree, Frame, sizeof_disk_inode, ipb}

-- The objects of a call: its entry, its `pname`, a text "/", `fileSys.cwd_name`, the frame of the `namei` that it calls, and
-- what stands at the address of a pointer to a block where that is passed in place of the block:
-- `allocInode` and `freeData` write it, and `allocData` releases it as the node `stray`.
pub record Locals : Type 0 where
  pub de : ℕ
  pub pname : ℕ
  pub slash : ℕ
  pub cwd_name : ℕ
  pub frame : Frame
  pub stray : ℕ
  pub stray_device : ℕ
  pub stray_block : ℕ
  pub stray_buf : Memory

-- `memset`
unfoldable pub fill : (a cnt v : ℕ) → Memory → Memory
fill a cnt v mem x = if leb a x && ltb x (a + cnt) then v else mem x

-- `allocInode` from step 3 on. The disk inode is cleared here and on the disk.
pub init_inode : (fuel ino device : ℕ) → Superblock → Tree → Option (ℕ × Tree)
init_inode fuel ino device sb t = do
  got ← new_inode fuel ino device t.inodes
  let ind = got.0
  ib ← block_read fuel device (u32 (ino / ipb + sb.inode_start)) t.store
  let (p, s) = ib
  let cleared = fill (ino % ipb * sizeof_disk_inode) sizeof_disk_inode 0 (s.cache.buf p)
  saved ← write_back fuel p (with_buf p cleared s)
  some (
    ind,
    record t {
      inodes = got.1;
      block = λ q k. if q == ind then 0 else t.block q k;
      store = saved.1;
    },
  )

unfoldable pub alloc_inode : (fuel device : ℕ) → Locals → Tree → Option (ℕ × Tree)
unfolding init_inode
alloc_inode fuel device l t = do
  head ← read_superblock fuel device l.frame.sb t.store
  let (result, sb, s1) = head
  bb ← block_read fuel device sb.bitmap_start s1
  let (p, s2) = bb
  let (found, marked) = alloc_ino sb.n_inode_block 0 (s2.cache.buf p)
  lost ← block_write fuel l.stray_device l.stray_block l.stray_buf (with_buf p marked s2)
  let t1 = record t { store = lost.1 }
  elim found [ none ↦ some (null, t1) | some ino ↦ init_inode fuel ino device sb t1 ]

unfoldable pub free_inode_on : (fuel device ino : ℕ) → Locals → Store → Option (ℕ × Store)
free_inode_on fuel device ino l s = do
  head ← read_superblock fuel device l.frame.sb s
  let (result, sb, s1) = head
  bb ← block_read fuel device sb.bitmap_start s1
  let (p, s2) = bb
  let (done, cleared) = free_inode sb.n_inode_block 0 ino (s2.cache.buf p)
  let written = do saved ← write_back fuel p (with_buf p cleared s2); some (0, saved.1)
  if done == 0 then written else some (done, s2)

unfoldable pub free_data_on : (fuel device addr : ℕ) → Locals → Store → Option (ℕ × Store)
free_data_on fuel device addr l s = do
  head ← read_superblock fuel device l.frame.sb s
  let (result, sb, s1) = head
  db ← block_read fuel device (sb.bitmap_start + 1) s1
  let (p, s2) = db
  let (done, cleared) = free_data sb.n_data_block 0 addr (s2.cache.buf p)
  let released = do
    lost ← block_write fuel l.stray_device l.stray_block l.stray_buf (with_buf p cleared s2)
    c ← rel_cached_block fuel p lost.1.cache
    some (0, record lost.1 { cache = c })
  if done == 0 then released else some (done, s2)
