-- ===== src/Fs/Inodes/Lookup.antt =====
-- Which inodes a lookup finds.
use orcas.Base.{ℕ, suc, ◌+◌, ◌<◌, ◌≡◌, ◌≢◌, refl, ap, ◌∙◌, arith, some, u32}
use orcas.Util.{put}
use orcas.Fs.Cache.{null, lru_list_head}
use orcas.Fs.Inodes.{
  Inodes, ihash, i_notcache, i_valid, find_ino, take_inode, get_cached_inode, new_inode,
}

-- The cache after a miss that takes the node `x`.
abbrev taken : (ino x : ℕ) → Inodes → Inodes
taken ino x c = record c {
  lru_next = put lru_list_head (c.lru_next x) c.lru_next;
  lru_prev = put (c.lru_next x) lru_list_head c.lru_prev;
  type = put x i_notcache c.type;
  hash_next = put (ihash ino) x (put x (c.hash_next (ihash ino)) c.hash_next);
  hash_prev = put x (ihash ino) c.hash_prev;
}

take_inode-taken :
    (ino x : ℕ) (c : Inodes)
    → c.lru_next lru_list_head ≡ x
    → x ≢ null
    → take_inode ino c ≡ (x, taken ino x c)
unfolding take_inode
take_inode-taken ino x c first ne = rw first (ground (arith, ne))

get_cached_inode-empty :
    (fuel ino : ℕ) (c : Inodes)
    → c.hash_next (ihash ino) ≡ null
    → get_cached_inode fuel ino c ≡ some (take_inode ino c)
unfolding get_cached_inode
get_cached_inode-empty fuel ino c empty = rw empty refl

get_cached_inode-taken :
    (fuel ino x : ℕ) (c : Inodes)
    → c.hash_next (ihash ino) ≡ null
    → c.lru_next lru_list_head ≡ x
    → x ≢ null
    → get_cached_inode fuel ino c ≡ some (x, taken ino x c)
get_cached_inode-taken fuel ino x c empty first ne =
    get_cached_inode-empty fuel ino c empty ∙ ap some (take_inode-taken ino x c first ne)

abbrev pub counted : (x : ℕ) → Inodes → Inodes
counted x c = record c {
  flag = put x i_valid c.flag;
  access = put x (u32 (c.access x + 1)) c.access;
}

-- A node under its number that stands first in the bucket is found.
pub get_cached_inode-counted :
    (fuel ino x : ℕ) (c : Inodes)
    → c.hash_next (ihash ino) ≡ x
    → x ≢ null
    → c.ino x ≡ ino
    → get_cached_inode (suc fuel) ino c ≡ some (x, counted x c)
unfolding get_cached_inode find_ino
get_cached_inode-counted fuel ino x c held ne same = rw held (ground (arith, ne, same))

-- A node that stands alone in the bucket under another number is passed over.
get_cached_inode-passed :
    (fuel ino x y : ℕ) (c : Inodes)
    → c.hash_next (ihash ino) ≡ x
    → x ≢ null
    → c.ino x ≢ ino
    → c.hash_next x ≡ null
    → c.ino null ≢ ino
    → c.lru_next lru_list_head ≡ y
    → y ≢ null
    → get_cached_inode (suc (suc fuel)) ino c ≡ some (y, taken ino y c)
unfolding get_cached_inode find_ino
get_cached_inode-passed fuel ino x y c held ne other end far first ny =
    rw (held, end) (ground (arith, ne, other, far, take_inode-taken ino y c first ny))

-- A lookup of an inode that is not in the cache does not put the number into the node that it takes:
-- a second lookup of the same number passes that node over and takes another one.
pub get_cached_inode-twice :
    (fuel ino x y : ℕ) (c : Inodes)
    → c.hash_next (ihash ino) ≡ null
    → c.lru_next lru_list_head ≡ x
    → c.lru_next x ≡ y
    → x ≢ null
    → y ≢ null
    → x < 129
    → c.ino x ≢ ino
    → c.ino null ≢ ino
    → (c1 : Inodes) × (c2 : Inodes) × (get_cached_inode (suc (suc fuel)) ino c ≡ some (x, c1))
      × (get_cached_inode (suc (suc fuel)) ino c1 ≡ some (y, c2))
get_cached_inode-twice fuel ino x y c empty first second nx ny low other far =
    let c1 : Inodes = taken ino x c in
    (
      c1,
      taken ino y c1,
      get_cached_inode-taken (suc (suc fuel)) ino x c empty first nx,
      get_cached_inode-passed fuel ino x y c1 (ground arith) nx other (ground (arith, empty)) far
          (ground (arith, second)) ny,
    )

-- An inode that `allocInode` has numbered is found again, in the same node, and counted.
pub new_inode-found :
    (fuel ino device x : ℕ) (c : Inodes)
    → c.hash_next (ihash ino) ≡ null
    → c.lru_next lru_list_head ≡ x
    → x ≢ null
    → (c1 : Inodes) × (c2 : Inodes) × (new_inode (suc fuel) ino device c ≡ some (x, c1))
      × (get_cached_inode (suc fuel) ino c1 ≡ some (x, c2))
      × (c2.access x ≡ 1)
      × (c2.flag x ≡ i_valid)
unfolding new_inode
new_inode-found fuel ino device x c empty first nx =
    let c0 : Inodes = taken ino x c in
    let c1 : Inodes = record c0 {
      ino = put x ino c0.ino;
      device = put x device c0.device;
      access = put x 0 c0.access;
      size = put x 0 c0.size;
      type = put x 0 c0.type;
      flag = put x 0 c0.flag;
      nlink = put x 0 c0.nlink;
    } in
    (
      c1,
      counted x c1,
      rw (get_cached_inode-taken (suc fuel) ino x c empty first nx, new_inode) refl,
      get_cached_inode-counted fuel ino x c1 (ground arith) nx (ground arith),
      ground arith,
      ground arith,
    )
