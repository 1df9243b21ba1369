-- ===== src/Fs/Data/Warm.antt =====
-- `allocData` where the superblock and the bitmap of the data blocks are in the cache.
use orcas.Base.{
  ℕ, suc, ◌+◌, ◌<◌, ◌==◌, ◌≡◌, ◌≢◌, refl, sym, ap, ap₂, ◌∙◌, if◌then◌else◌, arith, some,
}
use orcas.Util.{Memory}
use orcas.Fs.{alloc_data}
use orcas.Fs.Cache.{Cache, null, bucket, take_hit, put_free, rel_cached_block}
use orcas.Fs.Cache.Disk.{Store, IsCached, buffer_of, block_read-hit, block_write-hit}
use orcas.Fs.Super.{Superblock, from_buf}
use orcas.Fs.Super.Layout.{read_superblock-hit}
use orcas.Fs.Data.{with_buf, write_back, alloc_data_on}

-- The superblock as the cache has it.
unfoldable pub super_of : Cache → Superblock
super_of c = from_buf (c.buf (buffer_of 1 c))

-- The block, the buffer and the bytes of the bitmap of the data blocks.
abbrev pub bitmap_block : Cache → ℕ
bitmap_block c = (super_of c).bitmap_start + 1

abbrev pub bitmap_buffer : Cache → ℕ
bitmap_buffer c = buffer_of (bitmap_block c) c

abbrev pub bitmap_of : Cache → Memory
bitmap_of c = c.buf (bitmap_buffer c)

-- The superblock and the bitmap are in the cache, in different blocks, and the node at `stray`,
-- which `allocData` releases, is no bucket and holds the number of a block whose bucket is empty.
pub record IsWarm (stray : ℕ) (c : Cache) : Type 0 where
  pub super_cached : IsCached 1 c
  pub bitmap_cached : IsCached (bitmap_block c) c
  pub apart : bitmap_block c ≢ 1
  pub outside : 256 < stray
  pub alone : c.hash_next (bucket (c.block stray)) ≡ null

-- `c'` is `c` with other bytes in the bitmap: each bucket has its buffer and each buffer its block.
pub record Marked (bitmap : Memory) (c c' : Cache) : Type 0 where
  pub hash_same : (b : ℕ) → buffer_of b c' ≡ buffer_of b c
  pub device_same : c'.device ≡ c.device
  pub block_same : c'.block ≡ c.block
  pub bytes_same : (q : ℕ) → c'.buf q ≡ (if q == bitmap_buffer c then bitmap else c.buf q)

pub IsCached-Marked :
    (b : ℕ) (bitmap : Memory) (c c' : Cache) → Marked bitmap c c' → IsCached b c → IsCached b c'
IsCached-Marked b bitmap c c' m h = record {
  not_null = rw (m.hash_same b) h.not_null;
  its_device = rw (m.device_same, m.hash_same b) h.its_device;
  its_block = rw (m.block_same, m.hash_same b) h.its_block;
}

pub super_of-Marked :
    (stray : ℕ) (bitmap : Memory) (c c' : Cache)
    → IsWarm stray c
    → Marked bitmap c c'
    → super_of c' ≡ super_of c
unfolding super_of
super_of-Marked stray bitmap c c' h m =
    let differ : buffer_of 1 c ≢ bitmap_buffer c = λ e.
      h.apart (sym h.bitmap_cached.its_block ∙ sym (ap c.block e) ∙ h.super_cached.its_block) in
    let kept : (if buffer_of 1 c == bitmap_buffer c then bitmap else c.buf (buffer_of 1 c))
        ≡ c.buf (buffer_of 1 c) =
      ground (arith, differ) in
    ap from_buf (ap c'.buf (m.hash_same 1) ∙ m.bytes_same (buffer_of 1 c) ∙ kept)

pub bitmap_of-Marked :
    (stray : ℕ) (bitmap : Memory) (c c' : Cache)
    → IsWarm stray c
    → Marked bitmap c c'
    → (bitmap_buffer c' ≡ bitmap_buffer c) × (bitmap_of c' ≡ bitmap)
bitmap_of-Marked stray bitmap c c' h m =
    let same : bitmap_buffer c' ≡ bitmap_buffer c =
      m.hash_same (bitmap_block c')
      ∙ ap (λ sb. buffer_of (sb.bitmap_start + 1) c) (super_of-Marked stray bitmap c c' h m) in
    (same, ap c'.buf same ∙ m.bytes_same (bitmap_buffer c) ∙ ground arith)

pub IsWarm-Marked :
    (stray : ℕ) (bitmap : Memory) (c c' : Cache)
    → IsWarm stray c
    → Marked bitmap c c'
    → IsWarm stray c'
IsWarm-Marked stray bitmap c c' h m =
    let same : bitmap_block c' ≡ bitmap_block c =
      ap (λ sb. sb.bitmap_start + 1) (super_of-Marked stray bitmap c c' h m) in
    record {
      super_cached = IsCached-Marked 1 bitmap c c' m h.super_cached;
      bitmap_cached = rw same (IsCached-Marked (bitmap_block c) bitmap c c' m h.bitmap_cached);
      apart = rw same h.apart;
      outside = h.outside;
      alone =
          m.hash_same (c'.block stray)
          ∙ ap (λ b. c.hash_next (bucket (b stray))) m.block_same
          ∙ h.alone;
    }

-- Releasing the stray node where its bucket is empty.
rel_cached_block-stray :
    (fuel stray : ℕ) (c : Cache)
    → c.hash_next (bucket (c.block stray)) ≡ null
    → rel_cached_block fuel stray c ≡ some (put_free stray c)
unfolding rel_cached_block
rel_cached_block-stray fuel stray c e = rw e refl

put_free-buckets :
    (stray b : ℕ) (c : Cache) → 256 < stray → buffer_of b (put_free stray c) ≡ buffer_of b c
unfolding put_free
put_free-buckets stray b c h = ground arith

pub write_back-keeps :
    (fuel b : ℕ) (buf : Memory) (s : Store)
    → IsCached b s.cache
    → let p = buffer_of b s.cache in
      (s' : Store) × (write_back (suc fuel) p (with_buf p buf s) ≡ some (0, s'))
      × (s'.cache.hash_next ≡ s.cache.hash_next)
      × (s'.cache.device ≡ s.cache.device)
      × (s'.cache.block ≡ s.cache.block)
      × (s'.cache.buf ≡ (with_buf p buf s).cache.buf)
unfolding write_back
write_back-keeps fuel b buf s h =
    let p = buffer_of b s.cache in
    let filled : Store = with_buf p buf s in
    let cached : IsCached b filled.cache = record {
      not_null = h.not_null;
      its_device = h.its_device;
      its_block = h.its_block;
    } in
    let (s', done, hash_same, device_same, block_same, buf_same) =
      block_write-hit fuel b filled cached in
    (s', rw (h.its_device, h.its_block) done, hash_same, device_same, block_same, buf_same)

alloc_data_on-steps :
    (fuel stray : ℕ) (sb0 : Superblock) (s s3 : Store)
    → let c = s.cache in
      let (addr, marked) =
        alloc_data (super_of c).n_data_block (super_of c).data_start 0 (bitmap_of c) in
      let s2 = record s { cache = take_hit (bitmap_buffer c) (take_hit (buffer_of 1 c) c) } in
      IsWarm stray c
      → write_back (suc fuel) (bitmap_buffer c) (with_buf (bitmap_buffer c) marked s2)
        ≡ some (0, s3)
      → s3.cache.hash_next (bucket (s3.cache.block stray)) ≡ null
      → alloc_data_on (suc fuel) 0 stray sb0 s
        ≡ some (addr, record s3 { cache = put_free stray s3.cache })
unfolding alloc_data_on super_of take_hit
alloc_data_on-steps fuel stray sb0 s s3 h saved alone =
    let s1 : Store = record s { cache = take_hit (buffer_of 1 s.cache) s.cache } in
    let cached : IsCached (bitmap_block s.cache) s1.cache = record {
      not_null = h.bitmap_cached.not_null;
      its_device = h.bitmap_cached.its_device;
      its_block = h.bitmap_cached.its_block;
    } in
    rw
      (
        read_superblock-hit fuel sb0 s h.super_cached,
        block_read-hit fuel (bitmap_block s.cache) s1 cached,
        saved,
        rel_cached_block-stray (suc fuel) stray s3.cache alone,
      )
      refl

-- With such a cache `allocData` takes the first free byte of the bitmap in it, and marks it there.
pub alloc_data_on-Marked :
    (fuel stray : ℕ) (sb0 : Superblock) (s : Store)
    → let c = s.cache in
      let (addr, marked) =
        alloc_data (super_of c).n_data_block (super_of c).data_start 0 (bitmap_of c) in
      IsWarm stray c
      → (s' : Store) × (alloc_data_on (suc fuel) 0 stray sb0 s ≡ some (addr, s'))
        × Marked marked c s'.cache
unfolding take_hit put_free
alloc_data_on-Marked fuel stray sb0 s h =
    let c = s.cache in
    let marked : Memory =
      (alloc_data (super_of c).n_data_block (super_of c).data_start 0 (bitmap_of c)).1 in
    let s2 : Store = record s { cache = take_hit (bitmap_buffer c) (take_hit (buffer_of 1 c) c) } in
    let cached : IsCached (bitmap_block c) s2.cache = record {
      not_null = h.bitmap_cached.not_null;
      its_device = h.bitmap_cached.its_device;
      its_block = h.bitmap_cached.its_block;
    } in
    let (s3, saved, hash_same, device_same, block_same, buf_same) =
      write_back-keeps fuel (bitmap_block c) marked s2 cached in
    let alone : s3.cache.hash_next (bucket (s3.cache.block stray)) ≡ null =
      ap₂ (λ next b. next (bucket (b stray))) hash_same block_same ∙ h.alone in
    (
      record s3 { cache = put_free stray s3.cache },
      alloc_data_on-steps fuel stray sb0 s s3 h saved alone,
      record {
        hash_same = λ b.
            put_free-buckets stray b s3.cache h.outside ∙ ap (λ next. next (bucket b)) hash_same;
        device_same = device_same;
        block_same = block_same;
        bytes_same = λ q. ap (λ buf. buf q) buf_same;
      },
    )
