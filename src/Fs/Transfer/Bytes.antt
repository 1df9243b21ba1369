-- ===== src/Fs/Transfer/Bytes.antt =====
-- `read` and `write` on the file as a list of bytes.
use orcas.Base.{
  ℕ, zero, suc, ◌+◌, ◌*◌, ◌/◌, ◌%◌, ◌^◌, ◌≤◌, ◌<◌, ◌≡◌, refl, ap, ap₂, ◌∙◌, arith, List, ◌∷◌, ◌++◌,
}
use orcas.Util.{Memory}
use orcas.Fs.Cache.{Cache}
use orcas.Fs.Cache.Disk.{IsCached, bytes}
use orcas.Fs.Data.Warm.{super_of, bitmap_block, bitmap_of, IsWarm}
use orcas.Fs.Transfer.{bsize, further, Inode, Files}
use orcas.Fs.Transfer.Chunk.{byte, AreCached}
use orcas.Fs.Transfer.Alloc.{Owned}

-- The file as its readers see it.
abbrev pub contents : Inode → Cache → List ℕ
contents ind c = bytes ind.size 0 (byte ind.block c)

pub bytes-same :
    (cnt i j : ℕ) (f g : Memory)
    → ((k : ℕ) → k < cnt → f (i + k) ≡ g (j + k))
    → bytes cnt i f ≡ bytes cnt j g
unfolding bytes
bytes-same zero i j f g h = refl
bytes-same (suc cnt) i j f g h =
    let first : f i ≡ g j = ap f (omega arith) ∙ h 0 (omega arith) ∙ ap g (omega arith) in
    ap₂ (λ x xs. x ∷ xs) first
      (bytes-same cnt (i + 1) (j + 1) f g
        (λ k p. ap f (omega arith) ∙ h (suc k) (omega arith) ∙ ap g (omega arith)))

pub bytes-append : (n m i : ℕ) (f : Memory) → bytes (n + m) i f ≡ bytes n i f ++ bytes m (i + n) f
unfolding bytes
bytes-append zero m i f = ap₂ (λ c j. bytes c j f) (omega arith) (omega arith)
bytes-append (suc n) m i f =
    let count : suc n + m ≡ suc (n + m) = omega arith in
    let from : i + 1 + n ≡ i + suc n = omega arith in
    ap (λ c. bytes c i f) count
    ∙ ap (λ xs. f i ∷ xs)
        (bytes-append n m (i + 1) f ∙ ap (λ j. bytes n (i + 1) f ++ bytes m j f) from)

-- A transfer ends in the last block that it reaches, or at the end of its first one.
pub further-reaches : (off n : ℕ) → off < bsize → off + n ≤ bsize * further off n + bsize
further-reaches off n h = ground arith

pub further-within :
    (start n size : ℕ) → start + n ≤ size → start / bsize + further (start % bsize) n ≤ size / bsize
further-within start n size h = ground arith

-- What the superblock and the bitmap of the data blocks say, as the cache has them.
abbrev pub n_data_block : Files → ℕ
n_data_block f = (super_of f.store.cache).n_data_block

abbrev pub data_start : Files → ℕ
data_start f = (super_of f.store.cache).data_start

abbrev pub bitmap : Files → Memory
bitmap f = bitmap_of f.store.cache

-- The inode at `a` has as many data blocks as its size reaches into, all different; the data blocks
-- of the disk are in the cache, and so are the superblock and the bitmap, which stand before them.
pub record IsStored (f : Files) (a : ℕ) : Type 0 where
  pub few : n_data_block f < 2 ^ 31
  pub fits : data_start f + n_data_block f < 2 ^ 32
  pub super_before : 1 < data_start f
  pub bitmap_before : bitmap_block f.store.cache < data_start f
  pub warm : IsWarm f.stray f.store.cache
  pub owned :
      Owned
        (n_data_block f)
        (data_start f)
        (f.inode a).block
        ((f.inode a).size / bsize + 1)
        (bitmap f)
  pub resident :
      (b : ℕ) → data_start f ≤ b → b < data_start f + n_data_block f → IsCached b f.store.cache

pub Owned-AreCached :
    (n start used : ℕ) (block : ℕ → ℕ) (bitmap : Memory) (c : Cache)
    → Owned n start block used bitmap
    → ((b : ℕ) → start ≤ b → b < start + n → IsCached b c)
    → AreCached block used c
Owned-AreCached n start used block bitmap c h resident = record {
  cached = λ k p. resident (block k) (h.from k p) (h.upto k p);
  distinct = h.distinct;
}
