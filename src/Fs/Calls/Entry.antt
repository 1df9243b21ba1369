-- ===== src/Fs/Calls/Entry.antt =====
-- A new entry at the end of a directory of one block.
use mathlib.Core.Path.{subst}
use orcas.Base.{
  ℕ, suc, ◌+◌, ◌*◌, ◌/◌, ◌%◌, ◌<◌, ◌≡◌, ◌∙◌, ◌==◌, if◌then◌else◌, arith, List, some, false, refl,
  ap, ap₂, sym, u32,
}
use orcas.Util.{Memory, put}
use orcas.Fs.Cache.{bucket, null, take_hit}
use orcas.Fs.Cache.Disk.{
  Store, IsCached, buffer_of, block_read, block_write, block_read-hit, block_write-hit, copy,
}
use orcas.Fs.Transfer.{bsize}
use orcas.Fs.Transfer.Chunk.{SameIndex, IsCached-same}
use orcas.Fs.Inodes.{Inodes}
use orcas.Fs.Directory.{Tree, sizeof_dentry}
use orcas.Fs.Directory.Entries.{
  EntryAt, EntryAt-moved, AreEntries, AreEntries-replaced, replaced, copy-inside, copy-outside,
}
use orcas.Fs.Directory.Walk.{IsDirectory}
use orcas.Fs.Data.{with_buf, write_back}
use orcas.Fs.Calls.{add_entry}

-- The inodes with a directory that is one entry longer.
abbrev pub enlarged : (dir : ℕ) → Inodes → Inodes
enlarged dir c = record c { size = put dir (u32 (c.size dir + sizeof_dentry)) c.size }

add_entry-far :
    (fuel dir de p : ℕ) (t : Tree) (s1 s2 : Store)
    → block_read fuel (t.inodes.device dir) (t.block dir (t.inodes.size dir / bsize)) t.store
      ≡ some (p, s1)
    → (p == null) ≡ false
    → write_back fuel p
        (with_buf p (copy (t.inodes.size dir % bsize) de sizeof_dentry t.mem (s1.cache.buf p)) s1)
      ≡ some (0, s2)
    → add_entry fuel dir de t ≡ some (0, record t { inodes = enlarged dir t.inodes; store = s2 })
unfolding add_entry
add_entry-far fuel dir de p t s1 s2 read ne written = rw (read, ne, written, add_entry) refl

-- A write of a buffer of drive 0 that stands first in its bucket ends well and keeps all buffers.
write_back-hit :
    (fuel block : ℕ) (s : Store)
    → IsCached block s.cache
    → (s' : Store) × (write_back (suc fuel) (buffer_of block s.cache) s ≡ some (0, s'))
      × SameIndex s.cache s'.cache
      × (s'.cache.buf ≡ s.cache.buf)
unfolding write_back
write_back-hit fuel block s h =
    let p = buffer_of block s.cache in
    let (s', done, next, device, number, buf) = block_write-hit fuel block s h in
    (
      s',
      ap₂ (λ d b. block_write (suc fuel) d b (s.cache.buf p) s) h.its_device h.its_block ∙ done,
      record { hash_same = next; device_same = device; block_same = number },
      buf,
    )

pub its_own : (p : ℕ) (x y : Memory) → (if p == p then x else y) ≡ x
its_own p x y = ground arith

-- The bytes of an entry at `de` after it has been put into the buffer of the directory.
entries_grown :
    (n de ino : ℕ) (s : List ℕ) (names : ℕ → List ℕ) (inos : ℕ → ℕ) (mem buf : Memory)
    → EntryAt mem de ino s
    → AreEntries buf 0 5 names inos
    → AreEntries
        (copy (sizeof_dentry * n) de sizeof_dentry mem buf)
        0
        5
        (replaced n s names)
        (replaced n ino inos)
entries_grown n de ino s names inos mem buf e es =
    let at : ℕ = sizeof_dentry * n in
    let after : Memory = copy at de sizeof_dentry mem buf in
    AreEntries-replaced buf after n ino s names inos
      (EntryAt-moved mem after de at ino s (λ i h. copy-inside at de sizeof_dentry i mem buf h) e)
      (λ a h. copy-outside at de sizeof_dentry a mem buf h) es

-- The helper that enters a file in its directory, alone, puts an entry behind the others of a
-- directory of one block with room for it: the entry of that number and name is then the last one,
-- the others and all other inodes are as before.
pub add_entry-IsDirectory :
    (fuel dir de n ino : ℕ) (s : List ℕ) (names : ℕ → List ℕ) (inos : ℕ → ℕ) (t : Tree)
    → IsDirectory t dir names inos
    → t.inodes.size dir ≡ sizeof_dentry * n
    → n < 4
    → EntryAt t.mem de ino s
    → (s2 : Store) × (add_entry (suc fuel) dir de t
        ≡ some (0, record t { inodes = enlarged dir t.inodes; store = s2 }))
      × IsDirectory
          (record t { inodes = enlarged dir t.inodes; store = s2 })
          dir
          (replaced n s names)
          (replaced n ino inos)
      × ((enlarged dir t.inodes).size dir ≡ sizeof_dentry * (n + 1))
unfolding take_hit
add_entry-IsDirectory fuel dir de n ino s names inos t d size few e =
    let p : ℕ = buffer_of (t.block dir 0) t.store.cache in
    let s1 : Store = record t.store { cache = take_hit p t.store.cache } in
    let from : t.inodes.size dir % bsize ≡ sizeof_dentry * n = omega (arith, size) in
    let first : t.inodes.size dir / bsize ≡ 0 = omega (arith, d.small) in
    let buf : Memory =
      copy (t.inodes.size dir % bsize) de sizeof_dentry t.mem (t.store.cache.buf p) in
    let resident : IsCached (t.block dir 0) (with_buf p buf s1).cache = record {
      not_null = d.resident.not_null;
      its_device = d.resident.its_device;
      its_block = d.resident.its_block;
    } in
    let (s2, written, same, bufs) =
      write_back-hit fuel (t.block dir 0) (with_buf p buf s1) resident in
    let read : block_read (suc fuel) (t.inodes.device dir) (t.block dir (t.inodes.size dir / bsize))
          t.store
        ≡ some (p, s1) =
      ap₂ (λ v k. block_read (suc fuel) v (t.block dir k) t.store) d.on_first first
      ∙ block_read-hit fuel (t.block dir 0) t.store d.resident in
    let grown_size : (enlarged dir t.inodes).size dir ≡ sizeof_dentry * (n + 1) =
      ground (arith, size) in
    let holds : s2.cache.buf (buffer_of (t.block dir 0) s2.cache)
        ≡ copy (sizeof_dentry * n) de sizeof_dentry t.mem (t.store.cache.buf p) =
      ap₂ (λ b next. b (next (bucket (t.block dir 0)))) bufs same.hash_same
      ∙ its_own p buf (t.store.cache.buf p)
      ∙ ap (λ o. copy o de sizeof_dentry t.mem (t.store.cache.buf p)) from in
    (
      s2,
      add_entry-far (suc fuel) dir de p t s1 s2 read (ground (arith, d.resident.not_null)) written,
      record {
        small = omega (arith, grown_size);
        on_first = d.on_first;
        resident = IsCached-same (t.block dir 0) (with_buf p buf s1).cache s2.cache same resident;
        entries =
            subst (λ b. AreEntries b 0 5 (replaced n s names) (replaced n ino inos)) (sym holds)
              (entries_grown n de ino s names inos t.mem (t.store.cache.buf p) e d.entries);
      },
      grown_size,
    )
