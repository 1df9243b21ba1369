-- ===== src/Fs/Calls/Remove.antt =====
-- rm of fs.c.
pub mod Clear
pub mod Freed
pub mod Removed
pub mod Contract
mod Tests
use orcas.Base.{ℕ, zero, suc, ◌+◌, ◌-◌, ◌/◌, ◌%◌, ◌==◌, if◌then◌else◌, Option, some}
use orcas.Util.{minus_one, strcmp}
use orcas.Fs.Path.{get_file_name}
use orcas.Fs.Cache.{null}
use orcas.Fs.Cache.Disk.{block_read, copy, ◌>>=◌}
use orcas.Fs.Transfer.{bsize}
use orcas.Fs.Super.{word_at}
use orcas.Fs.Directory.{Tree, sizeof_dentry, name_of, namei, inode_of}
use orcas.Fs.Data.{with_buf}
use orcas.Fs.Allocator.{Locals, fill, free_inode_on, free_data_on}

-- How the search for the entry ends: by `goto found`, past the last entry, or by a failed read.
pub data Search : Type 0 where
  found : Search
  passed : Search
  failed : Search

-- The name, its directory, and the tree.
pub parent_of : (fuel path : ℕ) → Locals → Tree → Option (ℕ × ℕ × Tree)
parent_of fuel path l t = do
  let absolute = do
    name ← get_file_name fuel path l.pname t.mem
    dir ← namei fuel l.pname l.frame (record t { mem = name.1 })
    some (name.0, dir.0, dir.1)
  if t.mem path == b'/' then absolute else some (path, t.cwd, t)

-- The entries of the buffer `db`, with the rounds left. The one that is found is cleared there, and
-- stays in `de`.
pub clear_entry : (left fuel off db name de : ℕ) → Tree → Option (Search × Tree)
clear_entry zero fuel off db name de t = some (passed, t)
clear_entry (suc left) fuel off db name de t = do
  let buf = t.store.cache.buf db
  let mem = copy de off sizeof_dentry buf t.mem
  order ← strcmp fuel (name_of de) name mem
  let t1 = record t { mem = mem }
  let rest = clear_entry left fuel (off + sizeof_dentry) db name de t1
  if order == 0
      then some (found, record t1 { store = with_buf db (fill off sizeof_dentry 0 buf) t1.store })
      else rest

-- One block of the directory `pind`, with that many entries.
clear_in : (entries fuel i name pind de : ℕ) → Tree → Option (Search × Tree)
clear_in entries fuel i name pind de t = do
  got ← block_read fuel (t.inodes.device pind) (t.block pind i) t.store
  let t1 = record t { store = got.1 }
  let searched = clear_entry entries fuel 0 got.0 name de t1
  if got.0 == null then some (failed, t1) else searched

-- The blocks from `i` on, with those before the last one counted.
clear_blocks : (left fuel i name pind de : ℕ) → Tree → Option (Search × Tree)
clear_blocks zero fuel i name pind de t =
    clear_in ((t.inodes.size pind % bsize + sizeof_dentry - 1) / sizeof_dentry) fuel i name pind de
      t
clear_blocks (suc left) fuel i name pind de t = do
  r ← clear_in 5 fuel i name pind de t
  elim r.0 [
    | passed ↦ clear_blocks left fuel (i + 1) name pind de r.1
    | found ↦ some r
    | failed ↦ some r
  ]

-- The loop that frees the data blocks.
pub free_blocks : (left fuel i ind : ℕ) → Locals → Tree → Option Tree
unfolding free_data_on
free_blocks zero fuel i ind l t = some t
free_blocks (suc left) fuel i ind l t = do
  r ← free_data_on fuel (t.inodes.device ind) (t.block ind i) l t.store
  free_blocks left fuel (i + 1) ind l (record t { store = r.1 })

-- `rm` from `found:` on, where the search has come to the entry in `de` or has passed the last one.
unfoldable pub free_file : (fuel : ℕ) → Locals → Tree → Option (ℕ × Tree)
unfolding free_blocks free_inode_on
free_file fuel l t = do
  r ← inode_of fuel (word_at t.mem l.de) l.frame.sb t
  let (ind, t1) = r
  t2 ← free_blocks (t1.inodes.size ind / bsize + 1) fuel 0 ind l t1
  s ← free_inode_on fuel (t2.inodes.device ind) (t2.inodes.ino ind) l t2.store
  some (0, record t2 { store = s.1 })

pub rm : (fuel path : ℕ) → Locals → Tree → Option (ℕ × Tree)
rm fuel path l t = do
  parent ← parent_of fuel path l t
  let (name, pind, t1) = parent
  r ← clear_blocks (t1.inodes.size pind / bsize) fuel 0 name pind l.de t1
  elim r.0 [
    | failed ↦ some (minus_one, r.1)
    | found ↦ free_file fuel l r.1
    | passed ↦ free_file fuel l r.1
  ]
