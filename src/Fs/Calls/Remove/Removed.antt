-- ===== src/Fs/Calls/Remove/Removed.antt =====
-- What `rm` leaves of the tree, behind its search.
use orcas.Base.{ℕ, suc, ◌+◌, ◌≡◌, ◌≢◌, ◌∙◌, sym, refl, ap, ap₂, arith, List, some}
use mathlib.Core.Path.{subst}
use orcas.Util.{Memory}
use orcas.Fs.Cache.{bucket, take_hit}
use orcas.Fs.Cache.Disk.{buffer_of, IsCached}
use orcas.Fs.Super.{Superblock, from_buf, word_at}
use orcas.Fs.Data.Warm.{super_of}
use orcas.Fs.Inodes.Lookup.{counted}
use orcas.Fs.Transfer.Chunk.{IsCached-same}
use orcas.Fs.Calls.Remove.Freed.{IsMapped, AreMapped-Unmoved, free_file-frees}
use orcas.Fs.Directory.{Tree}
use orcas.Fs.Directory.Entries.{AreEntries}
use orcas.Fs.Directory.Walk.{IsDirectory, block_taken}
use orcas.Fs.Allocator.{Locals}
use orcas.Fs.Calls.Remove.{free_file}
use orcas.Fs.Calls.Remove.Clear.{cleared}

-- The cache behind the read of the directory, and with its buffer changed, has the same maps.
pub IsMapped-read :
    (ino ind : ℕ) (sb : Superblock) (t : Tree) (mem' : Memory)
    → IsMapped ino ind sb t
    → IsMapped ino ind sb (record (block_taken t.cwd t) { mem = mem' })
unfolding take_hit
IsMapped-read ino ind sb t mem' h = record {
  held = h.held;
  not_null = h.not_null;
  numbered = h.numbered;
  typed = h.typed;
  on_first = h.on_first;
  maps =
      AreMapped-Unmoved sb t.store.cache _
        (record {
          index = record { hash_same = refl; device_same = refl; block_same = refl };
          buf_same = refl;
        })
        h.maps;
  within = h.within;
  small = h.small;
  above = h.above;
}

-- A buffer of another block than the superblock's.
pub IsMapped-cleared :
    (ino ind block off : ℕ) (sb : Superblock) (t : Tree)
    → IsCached block t.store.cache
    → block ≢ 1
    → IsMapped ino ind sb t
    → IsMapped ino ind sb (cleared (buffer_of block t.store.cache) off t)
unfolding super_of
IsMapped-cleared ino ind block off sb t here ne h =
    let c = t.store.cache in
    let p = buffer_of block c in
    let differ : buffer_of 1 c ≢ p =
      λ e. ne (sym here.its_block ∙ sym (ap c.block e) ∙ h.maps.super_cached.its_block) in
    let kept : (cleared p off t).store.cache.buf (buffer_of 1 c) ≡ c.buf (buffer_of 1 c) =
      ground (arith, differ) in
    record {
      held = h.held;
      not_null = h.not_null;
      numbered = h.numbered;
      typed = h.typed;
      on_first = h.on_first;
      maps = record {
        super_is = ap from_buf kept ∙ h.maps.super_is;
        super_cached = record {
          not_null = h.maps.super_cached.not_null;
          its_device = h.maps.super_cached.its_device;
          its_block = h.maps.super_cached.its_block;
        };
        inode_map = record {
          not_null = h.maps.inode_map.not_null;
          its_device = h.maps.inode_map.its_device;
          its_block = h.maps.inode_map.its_block;
        };
        data_map = record {
          not_null = h.maps.data_map.not_null;
          its_device = h.maps.data_map.its_device;
          its_block = h.maps.data_map.its_block;
        };
      };
      within = h.within;
      small = h.small;
      above = h.above;
    }

-- What `rm` leaves of a tree in which the inode `ino` at `ind` is mapped: the inode is counted once
-- more, its byte in the bitmap is clear, the bitmap of the data blocks is as before, and the
-- directory has these entries.
pub record IsRemoved (ino ind : ℕ) (sb : Superblock) (names : ℕ → List ℕ) (inos : ℕ → ℕ)
    (t t' : Tree) : Type 0 where
  pub its_inodes : t'.inodes ≡ counted ind t.inodes
  pub its_byte : t'.store.cache.buf (buffer_of sb.bitmap_start t.store.cache) ino ≡ 0
  pub same_data :
      t'.store.cache.buf (buffer_of (sb.bitmap_start + 1) t.store.cache)
      ≡ t.store.cache.buf (buffer_of (sb.bitmap_start + 1) t.store.cache)
  pub its_entries : IsDirectory t' t.cwd names inos

-- The end of `rm` in a tree whose directory has these entries already.
pub free_file-IsRemoved :
    (fuel ino ind : ℕ) (sb : Superblock) (names : ℕ → List ℕ) (inos : ℕ → ℕ) (l : Locals) (t : Tree)
    → word_at t.mem l.de ≡ ino
    → IsMapped ino ind sb t
    → IsDirectory t t.cwd names inos
    → t.block t.cwd 0 ≢ sb.bitmap_start
    → (t' : Tree) × (free_file (suc fuel) l t ≡ some (0, t')) × IsRemoved ino ind sb names inos t t'
free_file-IsRemoved fuel ino ind sb names inos l t e h d ne =
    let c = t.store.cache in
    let p : ℕ = buffer_of sb.bitmap_start c in
    let q : ℕ = buffer_of (sb.bitmap_start + 1) c in
    let r : ℕ = buffer_of (t.block t.cwd 0) c in
    let (s', run, index, bufs) = free_file-frees fuel ino ind sb l t e h in
    let map_differs : q ≢ p = λ z.
      absurd (
        omega (arith, sym h.maps.data_map.its_block ∙ ap c.block z ∙ h.maps.inode_map.its_block)) in
    let dir_differs : r ≢ p =
      λ z. ne (sym d.resident.its_block ∙ ap c.block z ∙ h.maps.inode_map.its_block) in
    let dir_same : s'.cache.buf (buffer_of (t.block t.cwd 0) s'.cache) ≡ c.buf r =
      ap₂ (λ buf next. buf (next (bucket (t.block t.cwd 0)))) bufs index.hash_same
      ∙ ground (arith, dir_differs) in
    (
      record t { inodes = counted ind t.inodes; store = s' },
      run,
      record {
        its_inodes = refl;
        its_byte = ap (λ b. b p ino) bufs ∙ ground arith;
        same_data = ap (λ b. b q) bufs ∙ ground (arith, map_differs);
        its_entries = record {
          small = d.small;
          on_first = d.on_first;
          resident = IsCached-same (t.block t.cwd 0) c s'.cache index d.resident;
          entries = subst (λ b. AreEntries b 0 5 names inos) (sym dir_same) d.entries;
        };
      },
    )
