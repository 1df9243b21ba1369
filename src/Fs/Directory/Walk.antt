-- ===== src/Fs/Directory/Walk.antt =====
-- The walk over the entries of a directory of one block, and `namei` of a name with '/' behind it.
use mathlib.Core.Path.{subst}
use native.Mathlib.Decide.{dec_le}
use orcas.Base.{
  ℕ, zero, suc, ◌+◌, ◌*◌, ◌/◌, ◌%◌, ◌≤◌, ◌<◌, ◌≡◌, ◌≢◌, ◌⊎◌, ◌∙◌, refl, arith, List, some,
}
use orcas.Util.{Memory, cell}
use orcas.Fs.Cache.{take_hit}
use orcas.Fs.Cache.Disk.{IsCached, buffer_of, block_read-hit}
use orcas.Fs.Transfer.{bsize}
use orcas.Fs.Inodes.{Inodes, get_cached_inode, i_notcache}
use orcas.Fs.Directory.{Tree, Frame, sizeof_dentry, namelen, walk_rest, walk_blocks, walk_term}
use orcas.Fs.Directory.Entries.{
  copy-outside, Sought, Sought-copy, EntryAt, AreEntries, first_entry, later_entries,
}
use orcas.Fs.Directory.Lookup.{
  entry_copied, try_entry-miss, try_entry-hit, inode_of-cached, walk_rest-step, walk_rest-stop,
}

-- Past the last entry of the name, the walk comes to its end with the inode that it has.
pub walk_rest-misses :
    (left fuel off db term : ℕ) (names : ℕ → List ℕ) (inos : ℕ → ℕ) (s : List ℕ) (fr : Frame)
    (ind : ℕ) (t : Tree)
    → namelen ≤ fuel
    → Sought fr.de term s t.mem
    → AreEntries (t.store.cache.buf db) off left names inos
    → ((i : ℕ) → i < left → names i ≢ s)
    → (mem' : Memory) × (walk_rest left fuel off db term fr ind t
        ≡ some (ind, record t { mem = mem' }))
      × ((a : ℕ) → (a < fr.de) ⊎ (fr.de + sizeof_dentry ≤ a) → mem' a ≡ t.mem a)
unfolding walk_rest
walk_rest-misses zero fuel off db term names inos s fr ind t many h es other =
    (t.mem, refl, λ a p. refl)
walk_rest-misses (suc left) fuel off db term names inos s fr ind t many h es other =
    elim (dec_le (t.inodes.size ind % bsize) off) [
      | yes past ↦ (t.mem, walk_rest-stop left fuel off db term fr ind t past, λ a p. refl)
      | no more ↦
          let t' : Tree = record t { mem = entry_copied db off fr t } in
          let next =
            try_entry-miss fuel db off term (inos 0) (names 0) s fr ind t many h (first_entry es)
              (other 0 (omega arith)) in
          let (mem', rest, kept) =
            walk_rest-misses left fuel (off + sizeof_dentry) db term (λ i. names (suc i))
              (λ i. inos (suc i)) s fr ind t' many
              (Sought-copy off term fr.de s (t.store.cache.buf db) t.mem h) (later_entries es)
              (λ i p. other (suc i) (omega arith)) in
          (
            mem',
            walk_rest-step left fuel off db term ind fr ind t t' (omega arith) next ∙ rest,
            λ a p. kept a p ∙ copy-outside fr.de off sizeof_dentry a (t.store.cache.buf db) t.mem p,
          )
    ]

-- With one entry of the name, the walk ends with its inode.
pub walk_rest-finds :
    (left fuel off db term j q : ℕ) (names : ℕ → List ℕ) (inos : ℕ → ℕ) (s : List ℕ) (fr : Frame)
    (ind : ℕ) (t : Tree) (c : Inodes)
    → namelen ≤ fuel
    → Sought fr.de term s t.mem
    → AreEntries (t.store.cache.buf db) off left names inos
    → j < left
    → off + sizeof_dentry * j < t.inodes.size ind % bsize
    → names j ≡ s
    → ((i : ℕ) → i < left → i ≢ j → names i ≢ s)
    → get_cached_inode fuel (inos j) t.inodes ≡ some (q, c)
    → c.type q ≢ i_notcache
    → (mem' : Memory) × (walk_rest left fuel off db term fr ind t
        ≡ some (q, record t { mem = mem'; inodes = c }))
      × ((a : ℕ) → (a < fr.de) ⊎ (fr.de + sizeof_dentry ≤ a) → mem' a ≡ t.mem a)
walk_rest-finds zero fuel off db term j q names inos s fr ind t c many h es hj within e other found
      typed =
    absurd (omega arith)
walk_rest-finds (suc left) fuel off db term zero q names inos s fr ind t c many h es hj within e
      other found typed =
    let t1 : Tree = record t { mem = entry_copied db off fr t } in
    let t2 : Tree = record t1 { inodes = c } in
    let first = subst (λ n. EntryAt (t.store.cache.buf db) off (inos 0) n) e (first_entry es) in
    let next =
      try_entry-hit fuel db off term (inos 0) s fr ind t many h first
      ∙ inode_of-cached fuel (inos 0) q fr.sb t1 c found typed in
    let (mem', rest, kept) =
      walk_rest-misses left fuel (off + sizeof_dentry) db term (λ i. names (suc i))
        (λ i. inos (suc i)) s fr q t2 many
        (Sought-copy off term fr.de s (t.store.cache.buf db) t.mem h) (later_entries es)
        (λ i p. other (suc i) (omega arith) (λ z. absurd (omega (arith, z)))) in
    (
      mem',
      walk_rest-step left fuel off db term q fr ind t t2 (omega arith) next ∙ rest,
      λ a p. kept a p ∙ copy-outside fr.de off sizeof_dentry a (t.store.cache.buf db) t.mem p,
    )
walk_rest-finds (suc left) fuel off db term (suc j) q names inos s fr ind t c many h es hj within e
      other found typed =
    let t' : Tree = record t { mem = entry_copied db off fr t } in
    let next =
      try_entry-miss fuel db off term (inos 0) (names 0) s fr ind t many h (first_entry es)
        (other 0 (omega arith) (λ z. absurd (omega (arith, z)))) in
    let (mem', rest, kept) =
      walk_rest-finds left fuel (off + sizeof_dentry) db term j q (λ i. names (suc i))
        (λ i. inos (suc i)) s fr ind t' c many
        (Sought-copy off term fr.de s (t.store.cache.buf db) t.mem h) (later_entries es)
        (omega arith) (omega arith) e
        (λ i p ne. other (suc i) (omega arith) (λ z. ne (omega (arith, z)))) found typed in
    (
      mem',
      walk_rest-step left fuel off db term ind fr ind t t' (omega arith) next ∙ rest,
      λ a p. kept a p ∙ copy-outside fr.de off sizeof_dentry a (t.store.cache.buf db) t.mem p,
    )

-- The directory `dir` lies in one cached block of drive 0, in which five entries begin.
pub record IsDirectory (t : Tree) (dir : ℕ) (names : ℕ → List ℕ) (inos : ℕ → ℕ) : Type 0 where
  pub small : t.inodes.size dir < bsize
  pub on_first : t.inodes.device dir ≡ 0
  pub resident : IsCached (t.block dir 0) t.store.cache
  pub entries :
      AreEntries (t.store.cache.buf (buffer_of (t.block dir 0) t.store.cache)) 0 5 names inos

-- The read of the block leaves this tree.
abbrev pub block_taken : (dir : ℕ) → Tree → Tree
block_taken dir t = record t {
  store = record t.store {
    cache = take_hit (buffer_of (t.block dir 0) t.store.cache) t.store.cache;
  };
}

walk_blocks-none :
    (rounds fuel : ℕ) (fr : Frame) (ind : ℕ) (t : Tree)
    → t.inodes.size ind < bsize
    → walk_blocks (suc rounds) fuel 0 fr ind t ≡ some (ind, t)
unfolding walk_blocks
walk_blocks-none rounds fuel fr ind t h = ground arith

pub walk_term-rest :
    (fuel i : ℕ) (names : ℕ → List ℕ) (inos : ℕ → ℕ) (fr : Frame) (dir : ℕ) (t : Tree)
    → IsDirectory t dir names inos
    → walk_term (suc fuel) i fr dir t
      ≡ walk_rest 5
          (suc fuel)
          0
          (buffer_of (t.block dir 0) t.store.cache)
          (cell fr.terms i 0)
          fr
          dir
          (block_taken dir t)
unfolding walk_term
walk_term-rest fuel i names inos fr dir t d =
    let none_before = walk_blocks-none fuel (suc fuel) fr dir t d.small in
    let first : t.inodes.size dir / bsize ≡ 0 = omega (arith, d.small) in
    let read = block_read-hit fuel (t.block dir 0) t.store d.resident in
    rw (none_before, first, d.on_first, read, walk_term) refl
