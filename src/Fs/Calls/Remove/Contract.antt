-- ===== src/Fs/Calls/Remove/Contract.antt =====
-- `rm` of a plain name in a directory of one block.
use orcas.Base.{
  ℕ, suc, ◌+◌, ◌*◌, ◌/◌, ◌≤◌, ◌<◌, ◌≡◌, ◌≢◌, ◌⊎◌, ◌∙◌, sym, refl, ap, ◌==◌, arith, List, [], some,
  false,
}
use mathlib.Core.Path.{subst}
use orcas.Util.{Memory}
use orcas.Util.Split.Terms.{Lacks}
use orcas.Fs.Cache.{null, take_hit}
use orcas.Fs.Cache.Disk.{Store, block_read, block_read-hit, buffer_of, IsCached}
use orcas.Fs.Transfer.{bsize}
use orcas.Fs.Super.{Superblock}
use orcas.Fs.Calls.Remove.Freed.{IsMapped}
use orcas.Fs.Calls.Remove.Removed.{IsMapped-read, IsMapped-cleared, IsRemoved, free_file-IsRemoved}
use orcas.Fs.Directory.{Tree, sizeof_dentry, name_of, namelen}
use orcas.Fs.Directory.Entries.{Sought, AreEntries, AreEntries-replaced, replaced, word_at-moved}
use orcas.Fs.Directory.Walk.{IsDirectory, block_taken}
use orcas.Fs.Directory.Plain.{is_relative}
use orcas.Fs.Directory.Listing.{entries_in}
use orcas.Fs.Allocator.{Locals, fill}
use orcas.Fs.Calls.Entry.{its_own}
use orcas.Fs.Calls.Remove.{
  found, passed, clear_entry, clear_in, clear_blocks, parent_of, free_file, rm,
}
use orcas.Fs.Calls.Remove.Clear.{cleared, clear_entry-finds, clear_entry-passes}

-- A plain name at `path`, clear of the local entry.
pub record IsPlain (path : ℕ) (s : List ℕ) (de : ℕ) (mem : Memory) : Type 0 where
  pub lacks : Lacks b'/' s
  pub sought : Sought de path s mem

module _ (fuel path p : ℕ) (l : Locals) (t t2 : Tree) (s1 : Store)
    (relative : (t.mem path == b'/') ≡ false) (small : t.inodes.size t.cwd / bsize ≡ 0)
    (read : block_read fuel (t.inodes.device t.cwd) (t.block t.cwd 0) t.store ≡ some (p, s1))
    (ne : (p == null) ≡ false) where
  rm-found :
      clear_entry (entries_in (t.inodes.size t.cwd)) fuel 0 p path l.de (record t { store = s1 })
        ≡ some (found, t2)
      → rm fuel path l t ≡ free_file fuel l t2
  unfolding rm parent_of clear_blocks clear_in
  rm-found run = rw (relative, small, read, ne, run, rm) refl

  rm-passed :
      clear_entry (entries_in (t.inodes.size t.cwd)) fuel 0 p path l.de (record t { store = s1 })
        ≡ some (passed, t2)
      → rm fuel path l t ≡ free_file fuel l t2
  unfolding rm parent_of clear_blocks clear_in
  rm-passed run = rw (relative, small, read, ne, run, rm) refl

the_read :
    (fuel : ℕ) (names : ℕ → List ℕ) (inos : ℕ → ℕ) (t : Tree)
    → IsDirectory t t.cwd names inos
    → block_read (suc fuel) (t.inodes.device t.cwd) (t.block t.cwd 0) t.store
      ≡ some (buffer_of (t.block t.cwd 0) t.store.cache, (block_taken t.cwd t).store)
the_read fuel names inos t d =
    ap (λ v. block_read (suc fuel) v (t.block t.cwd 0) t.store) d.on_first
    ∙ block_read-hit fuel (t.block t.cwd 0) t.store d.resident

-- `rm` of a plain name with no '/' in a directory of one block that has no entry of that name, but
-- has some entry, returns 0, removes nothing from the directory, and clears the last entry's inode
-- in the bitmap; its data blocks stay taken. The inode, the superblock and the bitmaps are cached,
-- the directory's block is none of these, and the addresses of the inode's data blocks lie above
-- the number of data blocks.
pub rm-passes :
    (fuel path n ind : ℕ) (sb : Superblock) (s : List ℕ) (names : ℕ → List ℕ) (inos : ℕ → ℕ)
    (l : Locals) (t : Tree)
    → namelen ≤ fuel
    → IsDirectory t t.cwd names inos
    → entries_in (t.inodes.size t.cwd) ≡ suc n
    → IsPlain path s l.de t.mem
    → ((i : ℕ) → i < suc n → names i ≢ s)
    → IsMapped (inos n) ind sb t
    → t.block t.cwd 0 ≢ 1
    → t.block t.cwd 0 ≢ sb.bitmap_start
    → (t' : Tree) × (rm (suc fuel) path l t ≡ some (0, t'))
      × IsRemoved (inos n) ind sb names inos t t'
unfolding take_hit
rm-passes fuel path n ind sb s names inos l t many d count h other mapped ns nb =
    let p : ℕ = buffer_of (t.block t.cwd 0) t.store.cache in
    let t1 : Tree = block_taken t.cwd t in
    let es : AreEntries (t1.store.cache.buf p) 0 (suc n) names inos = record {
      entry = λ i q. d.entries.entry i (omega (arith, count, d.small, q));
    } in
    let (mem', run, last) =
      clear_entry-passes n (suc fuel) 0 p path l.de names inos s t1 (omega arith) h.sought es
        other in
    let t2 : Tree = record t1 { mem = mem' } in
    let searched =
      rm-passed (suc fuel) path p l t t2 t1.store (is_relative path t.mem s h.sought.text h.lacks)
        (omega (arith, d.small)) (the_read fuel names inos t d)
        (ground (arith, d.resident.not_null))
        (ap (λ k. clear_entry k (suc fuel) 0 p path l.de t1) count ∙ run) in
    let (t', freed, r) =
      free_file-IsRemoved fuel (inos n) ind sb names inos l t2 last
        (IsMapped-read (inos n) ind sb t mem' mapped)
        (record {
          small = d.small;
          on_first = d.on_first;
          resident = record {
            not_null = d.resident.not_null;
            its_device = d.resident.its_device;
            its_block = d.resident.its_block;
          };
          entries = d.entries;
        })
        nb in
    (
      t',
      searched ∙ freed,
      record {
        its_inodes = r.its_inodes;
        its_byte = r.its_byte;
        same_data = r.same_data;
        its_entries = r.its_entries;
      },
    )

fill-inside : (off cnt a : ℕ) (buf : Memory) → off ≤ a → a < off + cnt → fill off cnt 0 buf a ≡ 0
unfolding fill
fill-inside off cnt a buf h k = ground arith

fill-outside :
    (off cnt a : ℕ) (buf : Memory) → (a < off) ⊎ (off + cnt ≤ a) → fill off cnt 0 buf a ≡ buf a
unfolding fill
fill-outside off cnt a buf h = ground arith

-- The entries of a block without the entry `j`.
entries_cleared :
    (j : ℕ) (names : ℕ → List ℕ) (inos : ℕ → ℕ) (buf : Memory)
    → AreEntries buf 0 5 names inos
    → AreEntries
        (fill (0 + sizeof_dentry * j) sizeof_dentry 0 buf)
        0
        5
        (replaced j [] names)
        (replaced j 0 inos)
entries_cleared j names inos buf es =
    let after : Memory = fill (0 + sizeof_dentry * j) sizeof_dentry 0 buf in
    AreEntries-replaced buf after j 0 [] names inos
      (record {
        named =
            fill-inside (0 + sizeof_dentry * j) sizeof_dentry (name_of (sizeof_dentry * j)) buf
              (omega arith) (omega arith);
        short = omega arith;
        numbered =
            word_at-moved (λ _. 0) after 0 (sizeof_dentry * j)
              (λ i h.
                fill-inside (0 + sizeof_dentry * j) sizeof_dentry (sizeof_dentry * j + i) buf
                  (omega arith) (omega arith));
      })
      (λ a h. fill-outside (0 + sizeof_dentry * j) sizeof_dentry a buf (omega arith)) es

-- `rm` of a plain name with no '/' that an entry of a directory of one block has returns 0, clears
-- the first such entry in the directory's buffer, leaves the others, and clears that entry's inode
-- in the bitmap; its data blocks stay taken. The inode, the superblock and the bitmaps are cached,
-- the directory's block is none of these, and the addresses of the inode's data blocks lie above
-- the number of data blocks.
pub rm-clears :
    (fuel path j ind : ℕ) (sb : Superblock) (s : List ℕ) (names : ℕ → List ℕ) (inos : ℕ → ℕ)
    (l : Locals) (t : Tree)
    → namelen ≤ fuel
    → IsDirectory t t.cwd names inos
    → j < entries_in (t.inodes.size t.cwd)
    → IsPlain path s l.de t.mem
    → names j ≡ s
    → ((i : ℕ) → i < j → names i ≢ s)
    → IsMapped (inos j) ind sb t
    → t.block t.cwd 0 ≢ 1
    → t.block t.cwd 0 ≢ sb.bitmap_start
    → t.block t.cwd 0 ≢ sb.bitmap_start + 1
    → (t' : Tree) × (rm (suc fuel) path l t ≡ some (0, t'))
      × IsRemoved (inos j) ind sb (replaced j [] names) (replaced j 0 inos) t t'
unfolding take_hit
rm-clears fuel path j ind sb s names inos l t many d hj h e other mapped ns nb nd =
    let p : ℕ = buffer_of (t.block t.cwd 0) t.store.cache in
    let t1 : Tree = block_taken t.cwd t in
    let n : ℕ = entries_in (t.inodes.size t.cwd) in
    let es : AreEntries (t1.store.cache.buf p) 0 n names inos = record {
      entry = λ i q. d.entries.entry i (omega (arith, d.small, q));
    } in
    let (mem', run, last) =
      clear_entry-finds n (suc fuel) 0 p path l.de j names inos s t1 (omega arith) h.sought es hj e
        other in
    let t2 : Tree = cleared p (0 + sizeof_dentry * j) (record t1 { mem = mem' }) in
    let after : Memory = fill (0 + sizeof_dentry * j) sizeof_dentry 0 (t.store.cache.buf p) in
    let searched =
      rm-found (suc fuel) path p l t t2 t1.store (is_relative path t.mem s h.sought.text h.lacks)
        (omega (arith, d.small)) (the_read fuel names inos t d)
        (ground (arith, d.resident.not_null)) run in
    let resident : IsCached (t.block t.cwd 0) t1.store.cache = record {
      not_null = d.resident.not_null;
      its_device = d.resident.its_device;
      its_block = d.resident.its_block;
    } in
    let (t', freed, r) =
      free_file-IsRemoved fuel (inos j) ind sb (replaced j [] names) (replaced j 0 inos) l t2 last
        (IsMapped-cleared (inos j) ind (t.block t.cwd 0) (0 + sizeof_dentry * j) sb
          (record t1 { mem = mem' }) resident ns (IsMapped-read (inos j) ind sb t mem' mapped))
        (record {
          small = d.small;
          on_first = d.on_first;
          resident = record {
            not_null = d.resident.not_null;
            its_device = d.resident.its_device;
            its_block = d.resident.its_block;
          };
          entries =
              subst (λ b. AreEntries b 0 5 (replaced j [] names) (replaced j 0 inos))
                (sym (its_own p after (t.store.cache.buf p)))
                (entries_cleared j names inos (t.store.cache.buf p) d.entries);
        })
        nb in
    let differ : buffer_of (sb.bitmap_start + 1) t.store.cache ≢ p = λ z. nd (
      sym d.resident.its_block ∙ sym (ap t.store.cache.block z) ∙ mapped.maps.data_map.its_block) in
    (
      t',
      searched ∙ freed,
      record {
        its_inodes = r.its_inodes;
        its_byte = r.its_byte;
        same_data = r.same_data ∙ ground (arith, differ);
        its_entries = r.its_entries;
      },
    )
