-- ===== src/Fs/Calls.antt =====
-- creat, mk, cd and open of fs.c, as far as their entries in a directory.
pub mod Remove
pub mod Start
pub mod Names
pub mod Entry
pub mod Made
pub mod Make
pub mod Absolute
pub mod Sample
mod Tests
use orcas.Base.{ℕ, ◌+◌, ◌/◌, ◌%◌, ◌==◌, ◌&&◌, if◌then◌else◌, u32, Option, some}
use orcas.Util.{Memory, put, minus_one, strlen, strncpy, strcat}
use orcas.Fs.{creat_file, open_file}
use orcas.Fs.Path.{get_file_name}
use orcas.Fs.Cache.{null}
use orcas.Fs.Cache.Disk.{block_read, copy, ◌>>=◌}
use orcas.Fs.Transfer.{bsize}
use orcas.Fs.Data.{with_buf, write_back, alloc_data_on}
use orcas.Fs.Allocator.{Locals, fill, alloc_inode}
use orcas.Fs.Directory.{Tree, namelen, sizeof_dentry, name_of, namei}

abbrev pub i_file : ℕ
i_file = 1

abbrev pub i_dir : ℕ
i_dir = 5

-- `de.ino = ino; memset(de.name, 0, NAMELEN);`
pub start_entry : (de ino : ℕ) → Memory → Memory
start_entry de ino mem =
    let m0 = put de (ino % 256) (put (de + 1) (ino / 256 % 256) mem) in
    let m1 = put (de + 2) (ino / 256 / 256 % 256) (put (de + 3) (ino / 256 / 256 / 256 % 256) m0) in
    fill (name_of de) namelen 0 m1

-- `strncpy(de.name, name, strlen(name));`
pub name_entry : (fuel de name : ℕ) → Memory → Option Memory
name_entry fuel de name mem = do
  len ← strlen fuel name mem
  some (strncpy (name_of de) name len mem).1

-- The entry at `de` goes to the end of the directory `pind`, as `creat` and `mk` put it there.
pub add_entry : (fuel pind de : ℕ) → Tree → Option (ℕ × Tree)
add_entry fuel pind de t = do
  let size = t.inodes.size pind
  let grown = record t.inodes { size = put pind (u32 (size + sizeof_dentry)) t.inodes.size }
  db ← block_read fuel (t.inodes.device pind) (t.block pind (size / bsize)) t.store
  let (p, s) = db
  let t1 = record t { inodes = grown; store = s }
  let buf = copy (size % bsize) de sizeof_dentry t.mem (s.cache.buf p)
  let written = do
    done ← write_back fuel p (with_buf p buf s)
    some (if done.0 == 0 then 0 else minus_one, record t1 { store = done.1 })
  if p == null then some (minus_one, t1) else written

-- `ind->dinode.type = type`
abbrev set_type : (ind type : ℕ) → Tree → Tree
set_type ind type t = record t { inodes = record t.inodes { type = put ind type t.inodes.type } }

-- `ind->dinode.block[0] = allocData(device)`
unfoldable pub first_block : (fuel device ind : ℕ) → Locals → Tree → Option Tree
unfolding alloc_data_on
first_block fuel device ind l t = do
  data_block ← alloc_data_on fuel device l.stray l.frame.sb t.store
  some (record t {
    block = λ q k. if q == ind && k == 0 then data_block.0 else t.block q k;
    store = data_block.1;
  })

unfoldable pub mk : (fuel name : ℕ) → Locals → Tree → Option (ℕ × Tree)
unfolding alloc_inode first_block
mk fuel name l t = do
  got ← alloc_inode fuel (t.inodes.device t.cwd) l t
  let ind = got.0
  let made = do
    let t1 = set_type ind i_dir got.1
    mem ← name_entry fuel l.de name (start_entry l.de (t1.inodes.ino ind) t1.mem)
    added ← add_entry fuel t1.cwd l.de (record t1 { mem = mem })
    let finished = do t2 ← first_block fuel (added.1.inodes.device ind) ind l added.1; some (0, t2)
    if added.0 == 0 then finished else some added
  if ind == null then some (minus_one, got.1) else made

-- Step 2 of `creat`, with `de.ino` and `de.name` set: the directory that gets the entry.
pub place_entry : (fuel path : ℕ) → Locals → Tree → Option (ℕ × Tree)
place_entry fuel path l t = do
  let absolute = do
    name ← get_file_name fuel path l.pname t.mem
    mem ← name_entry fuel l.de name.0 name.1
    namei fuel l.pname l.frame (record t { mem = mem })
  let relative = do mem ← name_entry fuel l.de path t.mem; some (t.cwd, record t { mem = mem })
  if t.mem path == b'/' then absolute else relative

pub creat : (fuel path mode : ℕ) → Locals → Tree → Option (ℕ × Tree)
unfolding alloc_inode place_entry first_block
creat fuel path mode l t = do
  got ← alloc_inode fuel (t.inodes.device t.cwd) l t
  let ind = got.0
  let made = do
    let t1 = set_type ind i_file got.1
    dir ← place_entry fuel path l (record t1 { mem = start_entry l.de (t1.inodes.ino ind) t1.mem })
    added ← add_entry fuel dir.0 l.de dir.1
    let finished = do
      t2 ← first_block fuel (added.1.inodes.device ind) ind l added.1
      let (fd, tbl) = creat_file ind mode t2.tbl
      some (fd, record t2 { tbl = tbl })
    if added.0 == 0 then finished else some added
  if ind == null then some (minus_one, got.1) else made

-- `open`
pub open_path : (fuel path mode : ℕ) → Locals → Tree → Option (ℕ × Tree)
unfolding creat
open_path fuel path mode l t = do
  found ← namei fuel path l.frame t
  let (ind, t1) = found
  let (fd, tbl) = open_file ind (t1.inodes.type ind) mode t1.tbl
  if ind == null then creat fuel path mode l t1 else some (fd, record t1 { tbl = tbl })

-- `slash` is the address of the text "/".
pub pathcat : (fuel slash parent child : ℕ) → Memory → Option Memory
pathcat fuel slash parent child mem = do
  longer ← strcat fuel parent slash mem
  strcat fuel parent child longer

pub cd : (fuel path : ℕ) → Locals → Tree → Option (ℕ × Tree)
unfolding pathcat
cd fuel path l t = do
  found ← namei fuel path l.frame t
  let (ind, t1) = found
  let entered = do
    mem ← pathcat fuel l.slash l.cwd_name path t1.mem
    some (0, record t1 { cwd = ind; mem = mem })
  if t1.inodes.type ind == i_dir then entered else some (minus_one, t1)
