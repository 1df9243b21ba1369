-- ===== src/Fs/Cache/Tests.antt =====
-- A cache with the buffers 1 and 2 free, and all buckets empty.
use orcas.Base.{true, ◌==◌, ◌≡◌, refl, arith, if◌then◌else◌, [], ◌∷◌, some, get_or, replicate}
use orcas.Ide.{to_bytes}
use orcas.Fs.Cache.{
  Cache, null, b_valid, b_unused, bcache_size, block_cache_init, get_cached_block, rel_cached_block,
}
use orcas.Fs.Cache.Disk.{Store, block_read, buffer_of}
use orcas.Fs.Cache.Free.{IsFree}
use orcas.Fs.Cache.Queue.{get_cached_block-miss, rel_cached_block-IsFree}
use orcas.Fs.Cache.Start.{down, block_cache_init-IsFree}
use orcas.Fs.Cache.Clash.{get_cached_block-clash}
use orcas.Fs.Cache.Load.{block_read-loads}

abbrev cold : Cache
cold = record {
  lru_prev = λ p. if p == 0 then 2 else if p == 2 then 1 else 0;
  lru_next = λ p. if p == 0 then 1 else if p == 1 then 2 else 0;
  hash_prev = λ _. 0;
  hash_next = λ _. 0;
  device = λ _. 0xffffffff;
  block = λ _. 0xffffffff;
  flags = λ _. b_unused;
  lru_cnt = λ _. 0;
  buf = λ _ _. 0;
}

cold-IsFree : IsFree cold (1 ∷ 2 ∷ [])
cold-IsFree = record {
  links = (refl, refl, (refl, refl, refl));
  tail = refl;
  distinct = (
    ((λ e. absurd (omega (arith, e))), ((λ e. absurd (omega (arith, e))), tt)),
    (((λ e. absurd (omega (arith, e))), tt), (tt, tt)),
  );
}

block_cache_init-IsFree_example :
    IsFree (block_cache_init cold) (down bcache_size) × (buffer_of 7 (block_cache_init cold) ≡ null)
block_cache_init-IsFree_example = block_cache_init-IsFree 7 cold

get_cached_block-miss_example :
    (c' : Cache) × (get_cached_block 1 0 7 cold ≡ some (1, c'))
    × IsFree c' (2 ∷ [])
    × (buffer_of 7 c' ≡ 1)
    × (c'.device 1 ≡ 0)
    × (c'.block 1 ≡ 7)
    × (c'.flags ≡ cold.flags)
get_cached_block-miss_example = get_cached_block-miss 1 0 7 1 (2 ∷ []) cold cold-IsFree refl

-- Buffer 3 holds block 7.
abbrev one_used : Cache
one_used = record cold {
  hash_next = λ q. if q == 136 then 3 else 0;
  device = λ p. if p == 3 then 0 else 0xffffffff;
  block = λ p. if p == 3 then 7 else 0xffffffff;
}

one_used-IsFree : IsFree one_used (1 ∷ 2 ∷ [])
one_used-IsFree = record {
  links = cold-IsFree.links;
  tail = cold-IsFree.tail;
  distinct = cold-IsFree.distinct;
}

rel_cached_block-IsFree_example :
    (c' : Cache) × (rel_cached_block 1 3 one_used ≡ some c')
    × IsFree c' (1 ∷ 2 ∷ 3 ∷ [])
    × (c'.flags 3 ≡ b_unused)
    × (buffer_of 7 c' ≡ 3)
rel_cached_block-IsFree_example =
    rel_cached_block-IsFree 0 3 (1 ∷ 2 ∷ []) one_used one_used-IsFree
      (
        (λ e. absurd (omega (arith, e))),
        ((λ e. absurd (omega (arith, e))), ((λ e. absurd (omega (arith, e))), tt)),
      )
      refl refl (λ e. absurd (omega (arith, e)))

get_cached_block-clash_example :
    (c1 : Cache) × (c2 : Cache) × (c3 : Cache) × (c4 : Cache) × (get_cached_block 1 0 7 cold
      ≡ some (1, c1))
    × (get_cached_block 1 0 8 c1 ≡ some (2, c2))
    × (get_cached_block 1 0 7 c2 ≡ some (1, c3))
    × (buffer_of 8 c3 ≡ 2)
    × (get_cached_block 1 0 9 c3 ≡ some (2, c4))
get_cached_block-clash_example =
    get_cached_block-clash 0 7 8 9 1 2 [] cold cold-IsFree (omega arith) (omega arith) refl refl
      refl (omega arith) (omega arith) (omega arith)

-- Every sector is full of the word 5, and the drive answers 0x50.
abbrev fives : Store
fives = record {
  cache = cold;
  disk = record {
    lba0 = 0;
    lba8 = 0;
    lba16 = 0;
    select = 0;
    command = 0;
    sectors = λ _ _. replicate 128 5;
    asks = true;
    floating = [];
  };
  answers = 0x58 ∷ [];
}

block_read-loads_example :
    (s1 : Store) × (s2 : Store) × (block_read 1 0 7 fives ≡ some (1, s1))
    × (s1.cache.buf 1 4 ≡ get_or (to_bytes (replicate 128 5)) 4 0)
    × (s1.cache.flags 1 ≡ b_valid)
    × (s1.answers ≡ [])
    × (block_read 1 0 7 s1 ≡ some (1, s2))
    × (s2.cache.buf ≡ s1.cache.buf)
    × (s2.answers ≡ [])
block_read-loads_example =
    block_read-loads 0 7 1 0x58 4 (2 ∷ []) [] fives cold-IsFree refl
      (λ e. absurd (omega (arith, e))) refl refl refl refl (omega arith)
