-- ===== src/Fs/Directory.antt =====
-- Directories of fs.c: `struct dentry`, `namei` with the inodes that it loads, and `ls`. A directory
-- is a file of entries of 104 bytes: the inode's number in four bytes, the lowest first, and a name.
-- Local objects have addresses; `none` is missing fuel or an answer of the drive that never comes.
pub mod Plain
pub mod Entries
pub mod Lookup
pub mod Walk
pub mod Resolve
pub mod Nested
mod Tests
pub mod Listing
use orcas.Base.{
  ℕ, zero, suc, ◌+◌, ◌*◌, ◌/◌, ◌%◌, ◌-◌, ◌==◌, ◌&&◌, ltb, if◌then◌else◌, u32, Option, none, some,
  List, [], ◌∷◌, ◌++◌,
}
use orcas.Util.{Memory, put, minus_one, strcmp, split, cell}
use orcas.Fs.{OpenFile}
use orcas.Fs.Cache.{null}
use orcas.Fs.Cache.Disk.{Store, block_read, copy, ◌>>=◌}
use orcas.Fs.Transfer.{bsize, ndata}
use orcas.Fs.Super.{Superblock, read_superblock, word_at}
use orcas.Fs.Inodes.{Inodes, i_notcache, get_cached_inode}

-- `block p k` is `dinode.block[k]` of the inode `p`; `cwd` and `root` are addresses of inodes.
pub record Tree : Type 0 where
  pub inodes : Inodes
  pub block : ℕ → ℕ → ℕ
  pub store : Store
  pub mem : Memory
  pub cwd : ℕ
  pub root : ℕ
  pub tbl : OpenFile

-- Where the local objects of `namei` are, and what its superblock held before.
pub record Frame : Type 0 where
  pub de : ℕ
  pub terms : ℕ
  pub sb : Superblock

abbrev pub namelen : ℕ
namelen = 100

abbrev pub sizeof_dentry : ℕ
sizeof_dentry = 104

-- `de.name`
abbrev pub name_of : ℕ → ℕ
name_of de = de + 4

abbrev pub sizeof_disk_inode : ℕ
sizeof_disk_inode = 292

abbrev pub ipb : ℕ
ipb = bsize / sizeof_disk_inode

-- `memmove(&(ind->dinode), ib->buf + off, sizeof(struct diskInode))`, of the fields of the model.
pub load_dinode : (ind off : ℕ) → (buf : Memory) → Tree → Tree
load_dinode ind off buf t = record t {
  inodes = record t.inodes {
    type = put ind (word_at buf (off + 8)) t.inodes.type;
    flag = put ind (word_at buf (off + 12)) t.inodes.flag;
    nlink = put ind (buf (off + 28) + buf (off + 29) * 256) t.inodes.nlink;
  };
  block = λ p k. if p == ind && ltb k ndata then word_at buf (off + 36 + 4 * k) else t.block p k;
}

-- The reading of a disk inode, by its number.
pub read_dinode : (fuel ino ind : ℕ) → Superblock → Tree → Option Tree
unfolding load_dinode
read_dinode fuel ino ind sb t = do
  head ← read_superblock fuel (t.inodes.device ind) sb t.store
  let (result, now, s) = head
  ib ← block_read fuel (t.inodes.device ind) (u32 (ino / ipb + now.inode_start)) s
  some (
      load_dinode ind (ino % ipb * sizeof_disk_inode) (ib.1.cache.buf ib.0)
        (record t { store = ib.1 }))

-- The inode of a number: the cached one, or one that is loaded.
pub inode_of : (fuel ino : ℕ) → Superblock → Tree → Option (ℕ × Tree)
unfolding read_dinode
inode_of fuel ino sb t = do
  got ← get_cached_inode fuel ino t.inodes
  let ind = got.0
  let t1 = record t { inodes = got.1 }
  let loaded = do t2 ← read_dinode fuel ino ind sb t1; some (ind, t2)
  if got.1.type ind == i_notcache then loaded else some (ind, t1)

-- `getInode` looks up the inode and reads the superblock, but loads and returns nothing.
unfoldable pub get_inode : (fuel ino : ℕ) → Superblock → Tree → Option Tree
get_inode fuel ino sb t = do
  got ← get_cached_inode fuel ino t.inodes
  let t1 = record t { inodes = got.1 }
  let looked = do
    head ← read_superblock fuel (got.1.device got.0) sb t.store
    some (record t1 { store = head.2 })
  if got.1.type got.0 == i_notcache then looked else some t1

-- One entry of the buffer `db` against the name at `term`; `ind` is the inode so far.
pub try_entry : (fuel db off term : ℕ) → Frame → (ind : ℕ) → Tree → Option (ℕ × Tree)
try_entry fuel db off term fr ind t = do
  let mem = copy fr.de off sizeof_dentry (t.store.cache.buf db) t.mem
  order ← strcmp fuel (name_of fr.de) term mem
  let t1 = record t { mem = mem }
  if order == 0 then inode_of fuel (word_at mem fr.de) fr.sb t1 else some (ind, t1)

-- The entries of a block before the last one, with the rounds left: five begin in a block.
pub walk_block : (left fuel off db term : ℕ) → Frame → (ind : ℕ) → Tree → Option (ℕ × Tree)
walk_block zero fuel off db term fr ind t = some (ind, t)
walk_block (suc left) fuel off db term fr ind t = do
  r ← try_entry fuel db off term fr ind t
  walk_block left fuel (off + sizeof_dentry) db term fr r.0 r.1

-- Those of the last block, whose end is that of the inode so far.
pub walk_rest : (left fuel off db term : ℕ) → Frame → (ind : ℕ) → Tree → Option (ℕ × Tree)
walk_rest zero fuel off db term fr ind t = some (ind, t)
walk_rest (suc left) fuel off db term fr ind t =
    let next = do
      r ← try_entry fuel db off term fr ind t
      walk_rest left fuel (off + sizeof_dentry) db term fr r.0 r.1
    in if ltb off (t.inodes.size ind % bsize) then next else some (ind, t)

-- The loop over the blocks before the last one; its `i` hides that of the terms.
pub walk_blocks : (rounds fuel i : ℕ) → Frame → (ind : ℕ) → Tree → Option (ℕ × Tree)
unfolding walk_block
walk_blocks zero fuel i fr ind t = none
walk_blocks (suc rounds) fuel i fr ind t =
    let next = do
      got ← block_read fuel (t.inodes.device ind) (t.block ind i) t.store
      r ← walk_block 5 fuel 0 got.0 (cell fr.terms i 0) fr ind (record t { store = got.1 })
      walk_blocks rounds fuel (i + 1) fr r.0 r.1
    in if ltb i (t.inodes.size ind / bsize) then next else some (ind, t)

-- One term of the path.
pub walk_term : (fuel i : ℕ) → Frame → (ind : ℕ) → Tree → Option (ℕ × Tree)
walk_term fuel i fr ind t = do
  r ← walk_blocks fuel fuel 0 fr ind t
  let (ind', t') = r
  let last = t'.block ind' (t'.inodes.size ind' / bsize)
  got ← block_read fuel (t'.inodes.device ind') last t'.store
  walk_rest 5 fuel 0 got.0 (cell fr.terms i 0) fr ind' (record t' { store = got.1 })

pub walk_terms : (left fuel i : ℕ) → Frame → (ind : ℕ) → Tree → Option (ℕ × Tree)
walk_terms zero fuel i fr ind t = some (ind, t)
walk_terms (suc left) fuel i fr ind t = do
  r ← walk_term fuel i fr ind t
  walk_terms left fuel (i + 1) fr r.0 r.1

-- The inode that is reached; it is never NULL because of a name that is not found.
pub namei : (fuel path : ℕ) → Frame → Tree → Option (ℕ × Tree)
namei fuel path fr t = do
  let ind = if t.mem path == b'/' then t.root else t.cwd
  terms ← split fuel path b'/' fr.terms t.mem
  walk_terms terms.0 fuel 0 fr ind (record t { mem = terms.1 })

-- The text that `printf` prints for `%s`.
pub text_at : (fuel p : ℕ) → Memory → Option (List ℕ)
text_at zero p mem = none
text_at (suc fuel) p mem =
    let next = do rest ← text_at fuel (p + 1) mem; some (mem p ∷ rest)
    in if mem p == 0 then some [] else next

-- The names that `ls` prints of the buffer `db`, for as many entries.
pub list_entries : (left fuel off db de : ℕ) → Tree → Option (List (List ℕ) × Tree)
list_entries zero fuel off db de t = some ([], t)
list_entries (suc left) fuel off db de t = do
  let mem = copy de off sizeof_dentry (t.store.cache.buf db) t.mem
  name ← text_at fuel (name_of de) mem
  rest ← list_entries left fuel (off + sizeof_dentry) db de (record t { mem = mem })
  some (name ∷ rest.0, rest.1)

-- The blocks of the directory before its last one: the names, and the result -1 for a read that fails.
pub list_blocks : (left fuel i de : ℕ) → Tree → Option (ℕ × List (List ℕ) × Tree)
list_blocks zero fuel i de t = some (0, [], t)
list_blocks (suc left) fuel i de t = do
  got ← block_read fuel (t.inodes.device t.cwd) (t.block t.cwd i) t.store
  let t1 = record t { store = got.1 }
  let listed = do
    names ← list_entries 5 fuel 0 got.0 de t1
    rest ← list_blocks left fuel (i + 1) de names.1
    let (result, more, t2) = rest
    some (result, names.0 ++ more, t2)
  if got.0 == null then some (minus_one, [], t1) else listed

-- The result, the names that are printed in order, and the tree; the line ends are left out.
pub ls : (fuel de : ℕ) → Tree → Option (ℕ × List (List ℕ) × Tree)
ls fuel de t = do
  let size = t.inodes.size t.cwd
  whole ← list_blocks (size / bsize) fuel 0 de t
  let (result, names, t1) = whole
  let last = do
    got ← block_read fuel (t1.inodes.device t1.cwd) (t1.block t1.cwd (size / bsize)) t1.store
    let t2 = record t1 { store = got.1 }
    let entries = (size % bsize + sizeof_dentry - 1) / sizeof_dentry
    let listed = do
      more ← list_entries entries fuel 0 got.0 de t2
      some (0, names ++ more.0, more.1)
    if got.0 == null then some (minus_one, names, t2) else listed
  if result == 0 then last else some (result, names, t1)
