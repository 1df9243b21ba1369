-- ===== src/Fs/Directory/Lookup.antt =====
-- A name that is looked for among the entries of one block.
use orcas.Base.{ℕ, suc, ◌+◌, ◌%◌, ◌≤◌, ◌<◌, ◌≡◌, ◌≢◌, ◌∙◌, ap, arith, List, some}
use orcas.Util.{Memory, strcmp}
use orcas.Util.Compare.{strcmp-same, strcmp-differs}
use orcas.Fs.Cache.Disk.{copy}
use orcas.Fs.Transfer.{bsize}
use orcas.Fs.Super.{Superblock, word_at}
use orcas.Fs.Inodes.{Inodes, get_cached_inode, i_notcache}
use orcas.Fs.Directory.{
  Tree, Frame, sizeof_dentry, name_of, namelen, try_entry, walk_rest, inode_of,
}
use orcas.Fs.Directory.Entries.{Sought, Sought-copy, EntryAt, name-copied, word_at-copied}

abbrev pub entry_copied : (db off : ℕ) → Frame → Tree → Memory
entry_copied db off fr t = copy fr.de off sizeof_dentry (t.store.cache.buf db) t.mem

try_entry-other :
    (fuel db off term r : ℕ) (fr : Frame) (ind : ℕ) (t : Tree)
    → let mem = entry_copied db off fr t in
      strcmp fuel (name_of fr.de) term mem ≡ some r
      → r ≢ 0
      → try_entry fuel db off term fr ind t ≡ some (ind, record t { mem = mem })
unfolding try_entry
try_entry-other fuel db off term r fr ind t e ne = rw (e, try_entry) (ground arith)

pub try_entry-miss :
    (fuel db off term ino : ℕ) (name s : List ℕ) (fr : Frame) (ind : ℕ) (t : Tree)
    → namelen ≤ fuel
    → Sought fr.de term s t.mem
    → EntryAt (t.store.cache.buf db) off ino name
    → name ≢ s
    → try_entry fuel db off term fr ind t ≡ some (ind, record t { mem = entry_copied db off fr t })
try_entry-miss fuel db off term ino name s fr ind t many h e ne =
    let (r, run, differs) =
      strcmp-differs fuel (name_of fr.de) term (entry_copied db off fr t) name s
        (omega (arith, e.short)) (name-copied fr.de off ino name (t.store.cache.buf db) t.mem e)
        (Sought-copy off term fr.de s (t.store.cache.buf db) t.mem h).text ne in
    try_entry-other fuel db off term r fr ind t run differs

try_entry-same :
    (fuel db off term ino : ℕ) (fr : Frame) (ind : ℕ) (t : Tree)
    → let mem = entry_copied db off fr t in
      strcmp fuel (name_of fr.de) term mem ≡ some 0
      → word_at mem fr.de ≡ ino
      → try_entry fuel db off term fr ind t ≡ inode_of fuel ino fr.sb (record t { mem = mem })
unfolding try_entry
try_entry-same fuel db off term ino fr ind t e same =
    rw (e, try_entry)
      (ap (λ n. inode_of fuel n fr.sb (record t { mem = entry_copied db off fr t })) same)

pub try_entry-hit :
    (fuel db off term ino : ℕ) (s : List ℕ) (fr : Frame) (ind : ℕ) (t : Tree)
    → namelen ≤ fuel
    → Sought fr.de term s t.mem
    → EntryAt (t.store.cache.buf db) off ino s
    → try_entry fuel db off term fr ind t
      ≡ inode_of fuel ino fr.sb (record t { mem = entry_copied db off fr t })
try_entry-hit fuel db off term ino s fr ind t many h e =
    let mem : Memory = entry_copied db off fr t in
    let run : strcmp fuel (name_of fr.de) term mem ≡ some 0 =
      strcmp-same fuel (name_of fr.de) term mem s (omega (arith, e.short))
        (name-copied fr.de off ino s (t.store.cache.buf db) t.mem e)
        (Sought-copy off term fr.de s (t.store.cache.buf db) t.mem h).text in
    try_entry-same fuel db off term ino fr ind t run
      (word_at-copied fr.de off (t.store.cache.buf db) t.mem ∙ e.numbered)

-- An inode whose cached type is not that of an inode to load.
pub inode_of-cached :
    (fuel ino ind : ℕ) (sb : Superblock) (t : Tree) (c : Inodes)
    → get_cached_inode fuel ino t.inodes ≡ some (ind, c)
    → c.type ind ≢ i_notcache
    → inode_of fuel ino sb t ≡ some (ind, record t { inodes = c })
unfolding inode_of
inode_of-cached fuel ino ind sb t c e ne = rw (e, inode_of) (ground arith)

pub walk_rest-step :
    (left fuel off db term ind' : ℕ) (fr : Frame) (ind : ℕ) (t t' : Tree)
    → off < t.inodes.size ind % bsize
    → try_entry fuel db off term fr ind t ≡ some (ind', t')
    → walk_rest (suc left) fuel off db term fr ind t
      ≡ walk_rest left fuel (off + sizeof_dentry) db term fr ind' t'
unfolding walk_rest
walk_rest-step left fuel off db term ind' fr ind t t' h e = rw (e, walk_rest) (ground arith)

pub walk_rest-stop :
    (left fuel off db term : ℕ) (fr : Frame) (ind : ℕ) (t : Tree)
    → t.inodes.size ind % bsize ≤ off
    → walk_rest (suc left) fuel off db term fr ind t ≡ some (ind, t)
unfolding walk_rest
walk_rest-stop left fuel off db term fr ind t h = ground arith
