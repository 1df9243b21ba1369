-- ===== src/Fs/Calls/Made.antt =====
-- An entry that is made in memory, put into the current directory, and looked up there.
use orcas.Base.{ℕ, suc, ◌*◌, ◌≤◌, ◌<◌, ◌≡◌, ◌≢◌, ◌∙◌, arith, List, ◌∷◌, some, ap, sym}
use orcas.Fs.Cache.{null}
use orcas.Fs.Inodes.{Inodes, ihash, get_cached_inode, i_notcache}
use orcas.Fs.Inodes.Lookup.{counted, get_cached_inode-counted}
use orcas.Fs.Directory.{Tree, Frame, sizeof_dentry, namelen, namei}
use orcas.Fs.Directory.Entries.{EntryAt, replaced}
use orcas.Fs.Directory.Walk.{IsDirectory}
use orcas.Fs.Directory.Resolve.{IsName, namei-finds}
use orcas.Fs.Calls.{add_entry}
use orcas.Fs.Calls.Entry.{enlarged, add_entry-IsDirectory}

replaced-other :
    (n i : ℕ) (s : List ℕ) (names : ℕ → List ℕ) → i ≢ n → replaced n s names i ≡ names i
replaced-other n i s names ne = ground arith

-- The inode of a number stands first in its bucket, with a type that is not 0.
pub record IsKnown (ino q : ℕ) (c : Inodes) : Type 0 where
  pub first : c.hash_next (ihash ino) ≡ q
  pub not_null : q ≢ null
  pub its_ino : c.ino q ≡ ino
  pub typed : c.type q ≢ i_notcache

-- With room for the entry in the only block of the current directory, no other entry of its name
-- there, and its inode in the cache with a type that is not 0: after the entry has been added,
-- `namei` of its name with '/' behind it returns the inode of its number.
pub namei-add_entry :
    (fuel path de x n ino q : ℕ) (s : List ℕ) (names : ℕ → List ℕ) (inos : ℕ → ℕ) (fr : Frame)
    (t : Tree)
    → namelen ≤ fuel
    → IsDirectory t t.cwd names inos
    → t.inodes.size t.cwd ≡ sizeof_dentry * n
    → n < 4
    → EntryAt t.mem de ino (x ∷ s)
    → IsName path x s fr t.mem
    → ((i : ℕ) → i < 5 → i ≢ n → names i ≢ x ∷ s)
    → IsKnown ino q t.inodes
    → (t1 : Tree) × (t2 : Tree) × (add_entry (suc fuel) t.cwd de t ≡ some (0, t1))
      × (namei (suc fuel) path fr t1 ≡ some (q, t2))
namei-add_entry fuel path de x n ino q s names inos fr t many d size few e h other known =
    let (s2, added, d', longer) =
      add_entry-IsDirectory fuel t.cwd de n ino (x ∷ s) names inos t d size few e in
    let t1 : Tree = record t { inodes = enlarged t.cwd t.inodes; store = s2 } in
    let c : Inodes = counted q (enlarged t.cwd t.inodes) in
    let found : get_cached_inode (suc fuel) ino (enlarged t.cwd t.inodes) ≡ some (q, c) =
      get_cached_inode-counted fuel ino q (enlarged t.cwd t.inodes) known.first known.not_null
        known.its_ino in
    let its_ino : replaced n ino inos n ≡ ino = ground arith in
    let (t2, run, same, kept, stays) =
      namei-finds fuel path x n q s (replaced n (x ∷ s) names) (replaced n ino inos) fr t1 c many d'
        h (omega arith) (omega (arith, longer)) (ground arith)
        (λ i p ne same_name. other i p ne (sym (replaced-other n i (x ∷ s) names ne) ∙ same_name))
        (ap (λ k. get_cached_inode (suc fuel) k (enlarged t.cwd t.inodes)) its_ino ∙ found)
        known.typed in
    (t1, t2, added, run)
