-- ===== src/Fs/Calls/Remove/Freed.antt =====
-- What `rm` frees, where the inode is in its cache and the superblock and the bitmaps in theirs.
use orcas.Base.{
  ℕ, zero, suc, ◌+◌, ◌/◌, ◌^◌, ◌≤◌, ◌<◌, ◌==◌, ◌≡◌, ◌≢◌, ◌∙◌, refl, ap, ap₂, if◌then◌else◌, arith,
  some, u32,
}
use orcas.Util.{Memory, put, minus_one}
use orcas.Fs.{free_inode, free_data}
use orcas.Fs.Cache.{Cache, null, bucket, take_hit}
use orcas.Fs.Cache.Disk.{Store, IsCached, buffer_of, block_read-hit}
use orcas.Fs.Transfer.{bsize}
use orcas.Fs.Transfer.Chunk.{SameIndex, IsCached-same}
use orcas.Fs.Super.{Superblock, from_buf, read_superblock, word_at}
use orcas.Fs.Super.Layout.{read_superblock-hit}
use orcas.Fs.Data.Warm.{super_of, write_back-keeps}
use orcas.Fs.Inodes.{ihash, i_notcache}
use orcas.Fs.Inodes.Lookup.{counted, get_cached_inode-counted}
use orcas.Fs.Directory.{Tree, inode_of}
use orcas.Fs.Directory.Lookup.{inode_of-cached}
use orcas.Fs.Allocator.{Locals, free_inode_on, free_data_on}
use orcas.Fs.Calls.Remove.{free_blocks, free_file}

-- No buffer and no bucket changes.
pub record Unmoved (c c' : Cache) : Type 0 where
  pub index : SameIndex c c'
  pub buf_same : c'.buf ≡ c.buf

Unmoved-none : (c : Cache) → Unmoved c c
Unmoved-none c = record {
  index = record { hash_same = refl; device_same = refl; block_same = refl };
  buf_same = refl;
}

Unmoved-then : (c c1 c2 : Cache) → Unmoved c c1 → Unmoved c1 c2 → Unmoved c c2
Unmoved-then c c1 c2 u v = record {
  index = record {
    hash_same = v.index.hash_same ∙ u.index.hash_same;
    device_same = v.index.device_same ∙ u.index.device_same;
    block_same = v.index.block_same ∙ u.index.block_same;
  };
  buf_same = v.buf_same ∙ u.buf_same;
}

super_of-Unmoved : (c c' : Cache) → Unmoved c c' → super_of c' ≡ super_of c
unfolding super_of
super_of-Unmoved c c' u =
    ap₂ (λ buf next. from_buf (buf (next (bucket 1)))) u.buf_same u.index.hash_same

-- The superblock in the cache is `sb`, and both bitmaps are in it too.
pub record AreMapped (sb : Superblock) (c : Cache) : Type 0 where
  pub super_is : super_of c ≡ sb
  pub super_cached : IsCached 1 c
  pub inode_map : IsCached sb.bitmap_start c
  pub data_map : IsCached (sb.bitmap_start + 1) c

pub AreMapped-Unmoved :
    (sb : Superblock) (c c' : Cache) → Unmoved c c' → AreMapped sb c → AreMapped sb c'
AreMapped-Unmoved sb c c' u h = record {
  super_is = super_of-Unmoved c c' u ∙ h.super_is;
  super_cached = IsCached-same 1 c c' u.index h.super_cached;
  inode_map = IsCached-same sb.bitmap_start c c' u.index h.inode_map;
  data_map = IsCached-same (sb.bitmap_start + 1) c c' u.index h.data_map;
}

-- The cache after a hit of the superblock and one of another block.
abbrev hit_both : (b : ℕ) → Cache → Cache
hit_both b c = take_hit (buffer_of b c) (take_hit (buffer_of 1 c) c)

hit_both-Unmoved : (b : ℕ) (c : Cache) → Unmoved c (hit_both b c)
unfolding take_hit
hit_both-Unmoved b c = record {
  index = record { hash_same = refl; device_same = refl; block_same = refl };
  buf_same = refl;
}

read_mapped :
    (fuel : ℕ) (sb old : Superblock) (s : Store)
    → AreMapped sb s.cache
    → read_superblock (suc fuel) 0 old s
      ≡ some (0, sb, record s { cache = take_hit (buffer_of 1 s.cache) s.cache })
unfolding super_of
read_mapped fuel sb old s h =
    read_superblock-hit fuel old s h.super_cached
    ∙ ap (λ r. some (0, r, record s { cache = take_hit (buffer_of 1 s.cache) s.cache })) h.super_is

-- The second of the two reads.
second_hit : (b : ℕ) (c : Cache) → IsCached b c → IsCached b (take_hit (buffer_of 1 c) c)
unfolding take_hit
second_hit b c h = record {
  not_null = h.not_null;
  its_device = h.its_device;
  its_block = h.its_block;
}

free_data-refuses :
    (n addr : ℕ) (mem : Memory) → n < addr → free_data n 0 addr mem ≡ (minus_one, mem)
unfolding free_data
free_data-refuses n addr mem h = ground arith

-- `freeData` of an address above the number of data blocks frees nothing.
free_data_on-refuses :
    (fuel addr : ℕ) (sb : Superblock) (l : Locals) (s : Store)
    → AreMapped sb s.cache
    → sb.n_data_block < addr
    → free_data_on (suc fuel) 0 addr l s
      ≡ some (minus_one, record s { cache = hit_both (sb.bitmap_start + 1) s.cache })
unfolding free_data_on take_hit
free_data_on-refuses fuel addr sb l s h above =
    let s1 : Store = record s { cache = take_hit (buffer_of 1 s.cache) s.cache } in
    rw
      (
        read_mapped fuel sb l.frame.sb s h,
        block_read-hit fuel (sb.bitmap_start + 1) s1
            (second_hit (sb.bitmap_start + 1) s.cache h.data_map),
        free_data-refuses sb.n_data_block addr
            (s.cache.buf (buffer_of (sb.bitmap_start + 1) s.cache)) above,
      )
      refl

free_inode-clears :
    (n ino : ℕ) (mem : Memory) → ino ≤ n → n < 2 ^ 31 → free_inode n 0 ino mem ≡ (0, put ino 0 mem)
unfolding free_inode
free_inode-clears n ino mem h small =
    let at : u32 (0 + ino) ≡ ino = omega arith in ground (arith, at)

-- `freeInode` clears the byte of the inode in the bitmap, and no other buffer changes.
free_inode_on-clears :
    (fuel ino : ℕ) (sb : Superblock) (l : Locals) (s : Store)
    → let p = buffer_of sb.bitmap_start s.cache in
      AreMapped sb s.cache
      → ino ≤ sb.n_inode_block
      → sb.n_inode_block < 2 ^ 31
      → (s' : Store) × (free_inode_on (suc fuel) 0 ino l s ≡ some (0, s'))
        × SameIndex s.cache s'.cache
        × (s'.cache.buf ≡ (λ q. if q == p then put ino 0 (s.cache.buf p) else s.cache.buf q))
unfolding free_inode_on take_hit
free_inode_on-clears fuel ino sb l s h within small =
    let p : ℕ = buffer_of sb.bitmap_start s.cache in
    let s1 : Store = record s { cache = take_hit (buffer_of 1 s.cache) s.cache } in
    let s2 : Store = record s { cache = hit_both sb.bitmap_start s.cache } in
    let cached : IsCached sb.bitmap_start s2.cache = record {
      not_null = h.inode_map.not_null;
      its_device = h.inode_map.its_device;
      its_block = h.inode_map.its_block;
    } in
    let (s3, saved, hash_same, device_same, block_same, buf_same) =
      write_back-keeps fuel sb.bitmap_start (put ino 0 (s.cache.buf p)) s2 cached in
    (
      s3,
      rw
          (
            read_mapped fuel sb l.frame.sb s h,
            block_read-hit fuel sb.bitmap_start s1 (second_hit sb.bitmap_start s.cache h.inode_map),
            free_inode-clears sb.n_inode_block ino (s.cache.buf p) within small,
            saved,
          )
          refl,
      record { hash_same = hash_same; device_same = device_same; block_same = block_same },
      buf_same,
    )

-- The loop over the data blocks frees none of them.
free_blocks-refuses :
    (left fuel i ind : ℕ) (sb : Superblock) (l : Locals) (t : Tree)
    → AreMapped sb t.store.cache
    → t.inodes.device ind ≡ 0
    → ((k : ℕ) → k < i + left → sb.n_data_block < t.block ind k)
    → (s' : Store) × (free_blocks left (suc fuel) i ind l t ≡ some (record t { store = s' }))
      × Unmoved t.store.cache s'.cache
unfolding free_blocks
free_blocks-refuses zero fuel i ind sb l t h dev above = (t.store, refl, Unmoved-none t.store.cache)
free_blocks-refuses (suc left) fuel i ind sb l t h dev above =
    let b : ℕ = sb.bitmap_start + 1 in
    let s1 : Store = record t.store { cache = hit_both b t.store.cache } in
    let once = hit_both-Unmoved b t.store.cache in
    let refused : free_data_on (suc fuel) (t.inodes.device ind) (t.block ind i) l t.store
        ≡ some (minus_one, s1) =
      ap (λ d. free_data_on (suc fuel) d (t.block ind i) l t.store) dev
      ∙ free_data_on-refuses fuel (t.block ind i) sb l t.store h (above i (omega arith)) in
    let (s2, rest, more) =
      free_blocks-refuses left fuel (i + 1) ind sb l (record t { store = s1 })
        (AreMapped-Unmoved sb t.store.cache s1.cache once h) dev (λ k p. above k (omega arith)) in
    (s2, rw refused rest, Unmoved-then t.store.cache s1.cache s2.cache once more)

-- The inode of that number is the node `ind` of the cache of inodes, on drive 0; the superblock is
-- `sb`, it and the bitmaps are in the cache, it has room for that many inodes, and the addresses of
-- the inode's data blocks lie above the number of data blocks.
pub record IsMapped (ino ind : ℕ) (sb : Superblock) (t : Tree) : Type 0 where
  pub held : t.inodes.hash_next (ihash ino) ≡ ind
  pub not_null : ind ≢ null
  pub numbered : t.inodes.ino ind ≡ ino
  pub typed : t.inodes.type ind ≢ i_notcache
  pub on_first : t.inodes.device ind ≡ 0
  pub maps : AreMapped sb t.store.cache
  pub within : ino ≤ sb.n_inode_block
  pub small : sb.n_inode_block < 2 ^ 31
  pub above : (k : ℕ) → k ≤ t.inodes.size ind / bsize → sb.n_data_block < t.block ind k

free_file-steps :
    (fuel ino ind : ℕ) (l : Locals) (t t1 : Tree) (s2 s3 : Store)
    → word_at t.mem l.de ≡ ino
    → inode_of fuel ino l.frame.sb t ≡ some (ind, t1)
    → free_blocks (t1.inodes.size ind / bsize + 1) fuel 0 ind l t1 ≡ some (record t1 { store = s2 })
    → free_inode_on fuel (t1.inodes.device ind) (t1.inodes.ino ind) l s2 ≡ some (0, s3)
    → free_file fuel l t ≡ some (0, record t1 { store = s3 })
unfolding free_file
free_file-steps fuel ino ind l t t1 s2 s3 e found blocks freed =
    rw (e, found, blocks, freed, free_file) refl

-- With the number of such an inode in the local entry, the end of `rm` clears its byte in the bitmap
-- of the inodes, and changes no other buffer: no data block is freed.
pub free_file-frees :
    (fuel ino ind : ℕ) (sb : Superblock) (l : Locals) (t : Tree)
    → let p = buffer_of sb.bitmap_start t.store.cache in
      word_at t.mem l.de ≡ ino
      → IsMapped ino ind sb t
      → (s' : Store) × (free_file (suc fuel) l t
          ≡ some (0, record t { inodes = counted ind t.inodes; store = s' }))
        × SameIndex t.store.cache s'.cache
        × (s'.cache.buf
            ≡ (λ q. if q == p then put ino 0 (t.store.cache.buf p) else t.store.cache.buf q))
free_file-frees fuel ino ind sb l t e h =
    let t1 : Tree = record t { inodes = counted ind t.inodes } in
    let found =
      inode_of-cached (suc fuel) ino ind l.frame.sb t (counted ind t.inodes)
        (get_cached_inode-counted fuel ino ind t.inodes h.held h.not_null h.numbered) h.typed in
    let (s2, blocks, u) =
      free_blocks-refuses (t.inodes.size ind / bsize + 1) fuel 0 ind sb l t1 h.maps h.on_first
        (λ k p. h.above k (omega arith)) in
    let maps2 = AreMapped-Unmoved sb t.store.cache s2.cache u h.maps in
    let (s3, freed, index, bufs) = free_inode_on-clears fuel ino sb l s2 maps2 h.within h.small in
    let freed_at : free_inode_on (suc fuel) (t.inodes.device ind) (t.inodes.ino ind) l s2
        ≡ some (0, s3) =
      ap₂ (λ d n. free_inode_on (suc fuel) d n l s2) h.on_first h.numbered ∙ freed in
    (
      s3,
      free_file-steps (suc fuel) ino ind l t t1 s2 s3 e found blocks freed_at,
      record {
        hash_same = index.hash_same ∙ u.index.hash_same;
        device_same = index.device_same ∙ u.index.device_same;
        block_same = index.block_same ∙ u.index.block_same;
      },
      bufs
          ∙ ap₂
              (λ buf (next : ℕ → ℕ). λ q.
                if q == next (bucket sb.bitmap_start)
                then put ino 0 (buf (next (bucket sb.bitmap_start)))
                else buf q)
              u.buf_same u.index.hash_same,
    )
