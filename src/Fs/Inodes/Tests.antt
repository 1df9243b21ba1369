-- ===== src/Fs/Inodes/Tests.antt =====
-- A cache of inodes with the nodes 1 and 2 free, and all buckets empty.
use orcas.Base.{◌==◌, ◌≡◌, refl, arith, if◌then◌else◌, some}
use orcas.Fs.Cache.{null}
use orcas.Fs.Cache.Free.{IsRing}
use orcas.Fs.Cache.Start.{down}
use orcas.Fs.Inodes.{
  Inodes, ibuf_size, i_valid, ihash, inode_cache_init, get_cached_inode, new_inode,
}
use orcas.Fs.Inodes.Lookup.{get_cached_inode-twice, new_inode-found}
use orcas.Fs.Inodes.Start.{inode_cache_init-IsRing}

abbrev empty_inodes : Inodes
empty_inodes = record {
  lru_prev = λ p. if p == 0 then 2 else if p == 2 then 1 else 0;
  lru_next = λ p. if p == 0 then 1 else if p == 1 then 2 else 0;
  hash_prev = λ _. 0;
  hash_next = λ _. 0;
  size = λ _. 0;
  ino = λ _. 0;
  device = λ _. 0;
  access = λ _. 0;
  type = λ _. 0;
  flag = λ _. 0;
  nlink = λ _. 0;
}

inode_cache_init-IsRing_test :
    IsRing
      (inode_cache_init empty_inodes).lru_next
      (inode_cache_init empty_inodes).lru_prev
      (down ibuf_size)
    × ((inode_cache_init empty_inodes).hash_next (ihash 5) ≡ null)
inode_cache_init-IsRing_test = inode_cache_init-IsRing 5 empty_inodes

get_cached_inode-twice_test :
    (c1 : Inodes) × (c2 : Inodes) × (get_cached_inode 2 5 empty_inodes ≡ some (1, c1))
    × (get_cached_inode 2 5 c1 ≡ some (2, c2))
get_cached_inode-twice_test =
    get_cached_inode-twice 0 5 1 2 empty_inodes refl refl refl (omega arith) (omega arith)
      (omega arith) (λ e. absurd (omega (arith, e))) (λ e. absurd (omega (arith, e)))

new_inode-found_test :
    (c1 : Inodes) × (c2 : Inodes) × (new_inode 1 5 0 empty_inodes ≡ some (1, c1))
    × (get_cached_inode 1 5 c1 ≡ some (1, c2))
    × (c2.access 1 ≡ 1)
    × (c2.flag 1 ≡ i_valid)
new_inode-found_test = new_inode-found 0 5 0 1 empty_inodes refl refl (omega arith)
