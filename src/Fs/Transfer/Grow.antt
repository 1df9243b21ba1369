-- ===== src/Fs/Transfer/Grow.antt =====
-- The loop of `write` that allocates, where the superblock and the bitmap are in the cache.
use native.Mathlib.Decide.{ℕ_discrete}
use mathlib.Core.Path.{subst}
use orcas.Base.{
  ℕ, zero, suc, ◌+◌, ◌==◌, ◌<◌, ◌≡◌, ◌≢◌, refl, sym, ap, ap₂, ◌∙◌, if◌then◌else◌, arith, some,
}
use orcas.Util.{Memory}
use orcas.Fs.{alloc_data}
use orcas.Fs.Cache.{Cache, bucket}
use orcas.Fs.Cache.Disk.{Store, IsCached, buffer_of}
use orcas.Fs.Super.{Superblock, from_buf}
use orcas.Fs.Data.Warm.{
  super_of, bitmap_block, bitmap_buffer, bitmap_of, IsWarm, Marked, super_of-Marked,
  bitmap_of-Marked, IsWarm-Marked, alloc_data_on-Marked,
}
use orcas.Fs.Transfer.{alloc_blocks}
use orcas.Fs.Transfer.Alloc.{take_blocks}
use orcas.Fs.Transfer.Chunk.{AreCached, Writes, IsCached-same}

Marked-none : (c : Cache) → Marked (bitmap_of c) c c
Marked-none c = record {
  hash_same = λ b. refl;
  device_same = refl;
  block_same = refl;
  bytes_same = λ q. elim (ℕ_discrete q (bitmap_buffer c)) [
    | yes e ↦ rw e (ground arith)
    | no ne ↦ ground arith
  ];
}

Marked-then :
    (stray : ℕ) (m1 m2 : Memory) (c c1 c2 : Cache)
    → IsWarm stray c
    → Marked m1 c c1
    → Marked m2 c1 c2
    → Marked m2 c c2
Marked-then stray m1 m2 c c1 c2 h u v =
    let (same, _) = bitmap_of-Marked stray m1 c c1 h u in
    record {
      hash_same = λ b. v.hash_same b ∙ u.hash_same b;
      device_same = v.device_same ∙ u.device_same;
      block_same = v.block_same ∙ u.block_same;
      bytes_same = λ q.
          v.bytes_same q
          ∙ ap₂ (λ p z. if q == p then m2 else z) same (u.bytes_same q)
          ∙ ground arith;
    }

-- What the loop takes with the superblock and the bitmap in the cache `c`.
abbrev pub taken : (left i cur : ℕ) → (block : ℕ → ℕ) → Cache → (ℕ → ℕ) × Memory
taken left i cur block c =
    take_blocks left i cur (super_of c).n_data_block (super_of c).data_start block (bitmap_of c)

module _ (fuel cur stray : ℕ) (sb0 : Superblock) where
  -- The loop ends with the blocks that the bitmap tells, and with the bitmap marked.
  pub alloc_blocks-Marked :
      (left i : ℕ) (block : ℕ → ℕ) (s : Store)
      → IsWarm stray s.cache
      → let grown = taken left i cur block s.cache in
        (s' : Store) × (alloc_blocks left (suc fuel) i cur stray sb0 block s ≡ some (grown.0, s'))
        × Marked grown.1 s.cache s'.cache
  unfolding alloc_blocks take_blocks
  alloc_blocks-Marked zero i block s h = (s, refl, Marked-none s.cache)
  alloc_blocks-Marked (suc left) i block s h =
      let c = s.cache in
      let got = alloc_data (super_of c).n_data_block (super_of c).data_start 0 (bitmap_of c) in
      let next : ℕ → ℕ = λ k. if k == cur + i then got.0 else block k in
      let (s1, done, m1) = alloc_data_on-Marked fuel stray sb0 s h in
      let (s2, rest, m2) =
        alloc_blocks-Marked left (i + 1) next s1 (IsWarm-Marked stray got.1 c s1.cache h m1) in
      let (_, bitmap1) = bitmap_of-Marked stray got.1 c s1.cache h m1 in
      let same : taken left (i + 1) cur next s1.cache
          ≡ take_blocks left (i + 1) cur (super_of c).n_data_block (super_of c).data_start next
              got.1 =
        ap₂ (λ sb m. take_blocks left (i + 1) cur sb.n_data_block sb.data_start next m)
          (super_of-Marked stray got.1 c s1.cache h m1) bitmap1 in
      (
        s2,
        rw done (rest ∙ ap (λ g. some (g.0, s2)) same),
        subst (λ g. Marked g.1 c s2.cache) same
            (Marked-then stray got.1 _ c s1.cache s2.cache h m1 m2),
      )

-- Filling blocks that are neither the superblock nor the bitmap leaves those as they are.
pub Writes-IsWarm :
    (stray : ℕ) (block : ℕ → ℕ) (bound a pb cnt : ℕ) (mem : Memory) (c c' : Cache)
    → IsWarm stray c
    → AreCached block bound c
    → ((k : ℕ) → k < bound → block k ≢ 1)
    → ((k : ℕ) → k < bound → block k ≢ bitmap_block c)
    → Writes block bound a pb cnt mem c c'
    → (super_of c' ≡ super_of c) × (bitmap_of c' ≡ bitmap_of c) × IsWarm stray c'
unfolding super_of
Writes-IsWarm stray block bound a pb cnt mem c c' h cached not_super not_bitmap w =
    let differ : (b : ℕ)
        → IsCached b c
        → ((k : ℕ) → k < bound → block k ≢ b)
        → c'.buf (buffer_of b c') ≡ c.buf (buffer_of b c) =
      λ b hb ne.
        ap (λ next. c'.buf (next (bucket b))) w.index.hash_same
        ∙ w.others (buffer_of b c) (λ k p e.
          ne k p (sym (cached.cached k p).its_block ∙ sym (ap c.block e) ∙ hb.its_block)) in
    let super_same : super_of c' ≡ super_of c = ap from_buf (differ 1 h.super_cached not_super) in
    let block_same : bitmap_block c' ≡ bitmap_block c = ap (λ sb. sb.bitmap_start + 1) super_same in
    (
      super_same,
      ap (λ b. c'.buf (buffer_of b c')) block_same
          ∙ differ (bitmap_block c) h.bitmap_cached not_bitmap,
      record {
        super_cached = IsCached-same 1 c c' w.index h.super_cached;
        bitmap_cached =
            subst (λ b. IsCached b c') (sym block_same)
              (IsCached-same (bitmap_block c) c c' w.index h.bitmap_cached);
        apart = λ e. h.apart (sym block_same ∙ e);
        outside = h.outside;
        alone =
            ap₂ (λ next b. next (bucket (b stray))) w.index.hash_same w.index.block_same ∙ h.alone;
      },
    )
