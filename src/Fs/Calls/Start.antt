-- ===== src/Fs/Calls/Start.antt =====
-- cat, fsInit and fsLoad of fs.c.
use orcas.Base.{ℕ, zero, suc, ◌/◌, ◌%◌, Option, some, List, [], ◌++◌}
use orcas.Util.{strncpy}
use orcas.Fs.{close}
use orcas.Ide.Disk.{run}
use orcas.Ide.Driver.{hard_driver_init}
use orcas.Fs.Cache.{block_cache_init}
use orcas.Fs.Cache.Disk.{Store, ◌>>=◌}
use orcas.Fs.Transfer.{Files, bsize, read}
use orcas.Fs.Super.{disk_layout_init}
use orcas.Fs.Inodes.{inode_cache_init}
use orcas.Fs.Directory.{Tree, text_at}
use orcas.Fs.Allocator.{Locals, alloc_inode}
use orcas.Fs.Calls.{open_path, first_block}

-- What `read` uses of the tree, and the locals of the `allocData` that only `write` calls.
abbrev files_of : Locals → Tree → Files
files_of l t = record {
  tbl = t.tbl;
  inode = λ p. record { size = t.inodes.size p; block = t.block p };
  store = t.store;
  stray = l.stray;
  sb = l.frame.sb;
  mem = t.mem;
}

-- `read(fd, buffer, size); printf("%s", buffer);`: what is printed, and the tree.
pub show_part : (fuel fd buffer size : ℕ) → Locals → Tree → Option (List ℕ × Tree)
show_part fuel fd buffer size l t = do
  r ← read fuel fd buffer size (files_of l t)
  let f = r.1
  text ← text_at fuel buffer f.mem
  some (text, record t { tbl = f.tbl; store = f.store; mem = f.mem })

show_blocks : (left fuel fd buffer : ℕ) → Locals → Tree → Option (List ℕ × Tree)
unfolding show_part
show_blocks zero fuel fd buffer l t = some ([], t)
show_blocks (suc left) fuel fd buffer l t = do
  shown ← show_part fuel fd buffer bsize l t
  rest ← show_blocks left fuel fd buffer l shown.1
  some (shown.0 ++ rest.0, rest.1)

-- What is printed, and the tree; the result is always 0.
unfoldable pub cat : (fuel path buffer : ℕ) → Locals → Tree → Option (List ℕ × Tree)
unfolding show_blocks
cat fuel path buffer l t = do
  opened ← open_path fuel path 1 l t
  let (fd, t1) = opened
  let size = t1.inodes.size (t1.tbl.fds fd).ind
  whole ← show_blocks (size / bsize) fuel fd buffer l t1
  last ← show_part fuel fd buffer (size % bsize) l whole.1
  some (whole.0 ++ last.0, record last.1 { tbl = close fd last.1.tbl })

-- The result of `hardDriverInit` is not looked at.
abbrev init_drive : Store → Option Store
init_drive s = do
  d ← hard_driver_init s.answers
  let (result, events, answers) = d
  some (record s { disk = run events s.disk; answers = answers })

-- `rname` is the address of the text "root/". The test of the file system at the end is left out.
unfoldable pub fs_init : (fuel rname : ℕ) → Locals → Tree → Option Tree
unfolding first_block alloc_inode
fs_init fuel rname l t = do
  s ← init_drive t.store
  laid ← disk_layout_init fuel l.frame.sb.size (record s { cache = block_cache_init s.cache })
  got ← alloc_inode fuel 0 l (record t { inodes = inode_cache_init t.inodes; store = laid })
  let root = got.0
  t1 ← first_block fuel 0 root l (record got.1 { root = root })
  some (record t1 {
    cwd = root;
    mem = (strncpy l.cwd_name rname 5 t1.mem).1;
    tbl = record t1.tbl { max_fd = 0 };
  })

unfoldable pub fs_load : Tree → Option Tree
fs_load t = do
  s ← init_drive t.store
  some (record t {
    inodes = inode_cache_init t.inodes;
    store = record s { cache = block_cache_init s.cache };
  })
