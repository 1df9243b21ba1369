-- ===== src/Fs/Transfer/Chunk.antt =====
-- One block of a transfer, when the blocks of the file are in the cache.
use native.Mathlib.Decide.{ℕ_discrete}
use orcas.Base.{
  ℕ, suc, ◌+◌, ◌-◌, ◌*◌, ◌/◌, ◌%◌, ◌≤◌, ◌<◌, ◌==◌, ◌&&◌, ◌≡◌, ◌≢◌, ltb, leb, if◌then◌else◌, arith,
  some, ap, ap₂, sym, ◌∙◌,
}
use orcas.Util.{Memory}
use orcas.Fs.Cache.{Cache, bucket, take_hit}
use orcas.Fs.Cache.Disk.{
  Store, block_read-hit, block_write-hit, copy, copy-copies, IsCached, buffer_of,
}
use orcas.Fs.Transfer.{bsize, write_chunk}

-- Byte `i` of the file whose blocks are `block`, as the cache has it.
abbrev pub byte : (block : ℕ → ℕ) → Cache → Memory
byte block c i = c.buf (buffer_of (block (i / bsize)) c) (i % bsize)

-- The first `bound` blocks of the file are different, and in the cache.
pub record AreCached (block : ℕ → ℕ) (bound : ℕ) (c : Cache) : Type 0 where
  pub cached : (k : ℕ) → k < bound → IsCached (block k) c
  pub distinct : (j k : ℕ) → j < bound → k < bound → block j ≡ block k → j ≡ k

-- Which block a buffer holds stays as it is.
pub record SameIndex (c c' : Cache) : Type 0 where
  pub hash_same : c'.hash_next ≡ c.hash_next
  pub device_same : c'.device ≡ c.device
  pub block_same : c'.block ≡ c.block

pub IsCached-same : (b : ℕ) (c c' : Cache) → SameIndex c c' → IsCached b c → IsCached b c'
IsCached-same b c c' e h = record {
  not_null = rw e.hash_same h.not_null;
  its_device = rw (e.device_same, e.hash_same) h.its_device;
  its_block = rw (e.block_same, e.hash_same) h.its_block;
}

-- The bytes from `a` on are those at `pb`, up to `cnt` of them; the others are as before, and so are
-- the buffers of other blocks.
pub record Writes (block : ℕ → ℕ) (bound a pb cnt : ℕ) (mem : Memory) (c c' : Cache) : Type 0 where
  pub index : SameIndex c c'
  pub written :
      (i : ℕ)
      → i < bsize * bound
      → byte block c' i
        ≡ (if leb a i && ltb i (a + cnt) then mem (pb + (i - a)) else byte block c i)
  pub others : (q : ℕ) → ((k : ℕ) → k < bound → q ≢ buffer_of (block k) c) → c'.buf q ≡ c.buf q

buffers_differ :
    (block : ℕ → ℕ) (bound j k : ℕ) (c : Cache)
    → AreCached block bound c
    → j < bound
    → k < bound
    → j ≢ k
    → buffer_of (block j) c ≢ buffer_of (block k) c
buffers_differ block bound j k c h hj hk ne same = ne (
    h.distinct j k hj hk
      (sym (h.cached j hj).its_block ∙ ap c.block same ∙ (h.cached k hk).its_block))

-- The bytes after `copy` into the buffer of block `k`.
byte-copy :
    (block : ℕ → ℕ) (bound k off pb cnt i : ℕ) (mem : Memory) (c : Cache)
    → AreCached block bound c
    → k < bound
    → off + cnt ≤ bsize
    → i < bsize * bound
    → (if buffer_of (block (i / bsize)) c == buffer_of (block k) c
          then copy off pb cnt mem (c.buf (buffer_of (block k) c))
          else c.buf (buffer_of (block (i / bsize)) c))
        (i % bsize)
      ≡ (if leb (bsize * k + off) i && ltb i (bsize * k + off + cnt)
          then mem (pb + (i - (bsize * k + off)))
          else byte block c i)
byte-copy block bound k off pb cnt i mem c h hk fits hi = elim (ℕ_discrete (i / bsize) k) [
  | yes e ↦
      let here : pb + (i % bsize - off) ≡ pb + (i - (bsize * k + off)) = omega arith in
      rw e (
        ground (
          arith,
          copy-copies off pb cnt mem (c.buf (buffer_of (block k) c)) (i % bsize),
          ap mem here,
        ))
  | no ne ↦ ground (arith, buffers_differ block bound (i / bsize) k c h (omega arith) hk ne)
]

pub write_chunk-Writes :
    (fuel k off pb cnt bound : ℕ) (block : ℕ → ℕ) (mem : Memory) (s : Store)
    → AreCached block bound s.cache
    → k < bound
    → off + cnt ≤ bsize
    → (s' : Store) × (write_chunk (suc fuel) (block k) off pb cnt mem s ≡ some s')
      × Writes block bound (bsize * k + off) pb cnt mem s.cache s'.cache
unfolding write_chunk take_hit
write_chunk-Writes fuel k off pb cnt bound block mem s h hk fits =
    let here : IsCached (block k) s.cache = h.cached k hk in
    let p : ℕ = buffer_of (block k) s.cache in
    let filled : Store = record s {
      cache = record (take_hit p s.cache) {
        buf = λ q. if q == p then copy off pb cnt mem (s.cache.buf p) else s.cache.buf q;
      };
    } in
    let cached : IsCached (block k) filled.cache = record {
      not_null = here.not_null;
      its_device = here.its_device;
      its_block = here.its_block;
    } in
    let (s', done, hash_same, device_same, block_same, buf_same) =
      block_write-hit fuel (block k) filled cached in
    (
      s',
      rw (block_read-hit fuel (block k) s here, here.its_device, here.its_block)
          (ground (arith, done)),
      record {
        index = record {
          hash_same = hash_same;
          device_same = device_same;
          block_same = block_same;
        };
        written = λ i hi.
            ap₂ (λ buf next. buf (next (bucket (block (i / bsize)))) (i % bsize)) buf_same hash_same
            ∙ byte-copy block bound k off pb cnt i mem s.cache h hk fits hi;
        others = λ q ne. ap (λ buf. buf q) buf_same ∙ ground (arith, ne k hk);
      },
    )

pub AreCached-same :
    (block : ℕ → ℕ) (bound : ℕ) (c c' : Cache)
    → SameIndex c c'
    → AreCached block bound c
    → AreCached block bound c'
AreCached-same block bound c c' e h = record {
  cached = λ k hk. IsCached-same (block k) c c' e (h.cached k hk);
  distinct = h.distinct;
}
