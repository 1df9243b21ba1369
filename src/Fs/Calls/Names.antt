-- ===== src/Fs/Calls/Names.antt =====
-- What open and cd of fs.c do with a plain name.
use orcas.Base.{ℕ, ◌+◌, ◌<◌, ◌≡◌, ◌≢◌, List, length, some, arith, refl}
use orcas.Util.{Memory, minus_one}
use orcas.Util.Text.{HasText}
use orcas.Util.Split.Terms.{Lacks}
use orcas.Fs.{find_fd, open_file}
use orcas.Fs.Cache.{null}
use orcas.Fs.Directory.{Tree, namei}
use orcas.Fs.Directory.Plain.{namei-plain}
use orcas.Fs.Allocator.{Locals}
use orcas.Fs.Calls.{open_path, cd, i_dir}

open_path-far :
    (fuel path mode : ℕ) (l : Locals) (t : Tree) (mem' : Memory)
    → namei fuel path l.frame t ≡ some (t.cwd, record t { mem = mem' })
    → t.cwd ≢ null
    → open_path fuel path mode l t
      ≡ some (
        find_fd t.tbl.bitmap,
        record t { mem = mem'; tbl = (open_file t.cwd (t.inodes.type t.cwd) mode t.tbl).1 },
      )
unfolding open_path open_file
open_path-far fuel path mode l t mem' e ne = rw (e, open_path) (ground arith)

-- `open` of a text without '/', below the array of terms, in a directory that is not NULL: whether
-- the directory has an entry of that name or not, the descriptor leads to the directory itself, and
-- no file is made.
pub open_path-plain :
    (fuel path mode : ℕ) (l : Locals) (t : Tree) (s : List ℕ)
    → length s < fuel
    → HasText t.mem path s
    → Lacks b'/' s
    → path + length s < l.frame.terms
    → t.cwd ≢ null
    → (t' : Tree) × (open_path fuel path mode l t ≡ some (find_fd t.tbl.bitmap, t'))
      × ((t'.tbl.fds (find_fd t.tbl.bitmap)).ind ≡ t.cwd)
      × (t'.inodes ≡ t.inodes)
      × (t'.store ≡ t.store)
unfolding open_file
open_path-plain fuel path mode l t s h text plain below ne =
    let (mem', run, kept) = namei-plain fuel path l.frame t s h text plain below in
    (_, open_path-far fuel path mode l t mem' run ne, ground arith, refl, refl)

cd-far :
    (fuel path : ℕ) (l : Locals) (t : Tree) (mem' : Memory)
    → namei fuel path l.frame t ≡ some (t.cwd, record t { mem = mem' })
    → t.inodes.type t.cwd ≢ i_dir
    → cd fuel path l t ≡ some (minus_one, record t { mem = mem' })
unfolding cd
cd-far fuel path l t mem' e ne = rw (e, cd) (ground arith)

-- `cd` of such a text fails where the current directory's type is not I_DIR, and stays there.
pub cd-refuses :
    (fuel path : ℕ) (l : Locals) (t : Tree) (s : List ℕ)
    → length s < fuel
    → HasText t.mem path s
    → Lacks b'/' s
    → path + length s < l.frame.terms
    → t.inodes.type t.cwd ≢ i_dir
    → (mem' : Memory) × (cd fuel path l t ≡ some (minus_one, record t { mem = mem' }))
cd-refuses fuel path l t s h text plain below ne =
    let (mem', run, kept) = namei-plain fuel path l.frame t s h text plain below in
    (mem', cd-far fuel path l t mem' run ne)
