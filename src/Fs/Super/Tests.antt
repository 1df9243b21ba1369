-- ===== src/Fs/Super/Tests.antt =====
-- The superblock of diskLayoutInit on a cold cache of two buffers.
use orcas.Base.{true, ◌==◌, ◌≡◌, refl, arith, if◌then◌else◌, some, [], ◌∷◌}
use orcas.Fs.Cache.{Cache, b_unused}
use orcas.Fs.Cache.Disk.{Store, block_write, bytes, buffer_of, IsCached}
use orcas.Fs.Cache.Free.{IsFree}
use orcas.Fs.Cache.Save.{over, block_write-saves}
use orcas.Ide.{to_words}
use orcas.Fs.Super.{layout, read_superblock, write_superblock}
use orcas.Fs.Super.Layout.{IsWords, read_superblock-write_superblock}

abbrev cold : Cache
cold = record {
  lru_prev = λ p. if p == 0 then 2 else if p == 2 then 1 else 0;
  lru_next = λ p. if p == 0 then 1 else if p == 1 then 2 else 0;
  hash_prev = λ _. 0;
  hash_next = λ _. 0;
  device = λ _. 0xffffffff;
  block = λ _. 0xffffffff;
  flags = λ _. b_unused;
  lru_cnt = λ _. 0;
  buf = λ _ _. 0;
}

cold-IsFree : IsFree cold (1 ∷ 2 ∷ [])
cold-IsFree = record {
  links = (refl, refl, (refl, refl, refl));
  tail = refl;
  distinct = (
    ((λ e. absurd (omega (arith, e))), ((λ e. absurd (omega (arith, e))), tt)),
    (((λ e. absurd (omega (arith, e))), tt), (tt, tt)),
  );
}

abbrev blank : Store
blank = record {
  cache = cold;
  disk = record {
    lba0 = 0;
    lba8 = 0;
    lba16 = 0;
    select = 0;
    command = 0;
    sectors = λ _ _. [];
    asks = true;
    floating = [];
  };
  answers = [];
}

layout-IsWords : IsWords (layout 7)
layout-IsWords = record {
  size_fits = omega arith;
  device_fits = omega arith;
  n_log_fits = omega arith;
  n_inode_fits = omega arith;
  n_data_fits = omega arith;
  log_fits = omega arith;
  inode_fits = omega arith;
  bitmap_fits = omega arith;
  data_fits = omega arith;
}

read_superblock-write_superblock_example :
    (s1 : Store) × (s2 : Store) × (write_superblock 1 0 (layout 7) blank ≡ some (0, s1))
    × (read_superblock 1 0 (layout 0) s1 ≡ some (0, layout 7, s2))
read_superblock-write_superblock_example =
    read_superblock-write_superblock 0 1 (2 ∷ []) (layout 7) (layout 0) blank cold-IsFree refl
      layout-IsWords

block_write-saves_example :
    (s1 : Store) × (block_write 1 0 9 (λ _. 5) blank ≡ some (0, s1))
    × IsFree s1.cache (2 ∷ [])
    × IsCached 9 s1.cache
    × (buffer_of 9 s1.cache ≡ 1)
    × (s1.cache.buf 1 ≡ over 512 (λ _. 5) (s1.cache.buf 1))
    × (s1.disk.sectors 0 9 ≡ to_words (bytes 512 0 (s1.cache.buf 1)))
block_write-saves_example =
    block_write-saves 0 9 1 (2 ∷ []) (λ _. 5) blank cold-IsFree refl (omega arith)
