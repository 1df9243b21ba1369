-- ===== src/Fs/Inodes.antt =====
-- The cache of inodes of fs.c: inodeCacheInit, getCachedInode, and what allocInode does with the
-- inode that it gets. As in the cache of blocks, each field is a function of the node's address, and
-- node 0 is both NULL and the head of the list, which nothing sets; nodes 1 to 128 are `icache.ibuf`,
-- the 128 nodes from 129 on `icache.ihash`.
pub mod Lookup
pub mod Start
mod Tests
use orcas.Base.{ℕ, zero, suc, ◌+◌, ◌%◌, ◌==◌, ◌||◌, if◌then◌else◌, u32, Option, none, some}
use orcas.Util.{Memory, put, minus_one}
use orcas.Fs.Cache.{null, lru_list_head}

pub record Inodes : Type 0 where
  pub lru_prev : ℕ → ℕ
  pub lru_next : ℕ → ℕ
  pub hash_prev : ℕ → ℕ
  pub hash_next : ℕ → ℕ
  pub size : ℕ → ℕ
  pub ino : ℕ → ℕ
  pub device : ℕ → ℕ
  pub access : ℕ → ℕ
  pub type : ℕ → ℕ
  pub flag : ℕ → ℕ
  pub nlink : ℕ → ℕ

abbrev pub ibuf_size : ℕ
ibuf_size = 128

abbrev pub ihash_size : ℕ
ihash_size = 128

abbrev pub i_notcache : ℕ
i_notcache = 0

abbrev pub i_valid : ℕ
i_valid = 2

-- `&icache.ibuf[i]`
abbrev pub inode_at : ℕ → ℕ
inode_at i = 1 + i

-- `&icache.ihash[IHASH(ino)]`, for a number that is not negative.
abbrev pub ihash : ℕ → ℕ
ihash ino = 129 + ino % ihash_size

-- The first loop of `inodeCacheInit`, with the rounds left.
pub init_ibuf : (left i : ℕ) → Inodes → Inodes
init_ibuf zero i c = c
init_ibuf (suc left) i c =
    let next = c.lru_next lru_list_head in
    init_ibuf left (i + 1) (record c {
      type = put (inode_at i) i_notcache c.type;
      nlink = put (inode_at i) 0 c.nlink;
      size = put (inode_at i) 0 c.size;
      lru_next = put lru_list_head (inode_at i) (put (inode_at i) next c.lru_next);
      lru_prev =
          put (inode_at i) lru_list_head
            (if next == null then c.lru_prev else put next (inode_at i) c.lru_prev);
    })

-- The second.
pub init_ihash : (left i : ℕ) → Inodes → Inodes
init_ihash zero i c = c
init_ihash (suc left) i c =
    init_ihash left (i + 1)
      (record c { ino = put (129 + i) minus_one c.ino; hash_next = put (129 + i) null c.hash_next })

pub inode_cache_init : Inodes → Inodes
inode_cache_init c =
    let c1 = init_ibuf ibuf_size 0 (record c {
      lru_prev = put lru_list_head null c.lru_prev;
      lru_next = put lru_list_head null c.lru_next;
    }) in
    init_ihash ihash_size 0 (record c1 {
      lru_prev = put lru_list_head (inode_at 0) c1.lru_prev;
      lru_next = put (inode_at 0) lru_list_head c1.lru_next;
    })

-- The `while` of `getCachedInode`.
pub find_ino : (fuel ino p : ℕ) → Inodes → Option ℕ
find_ino zero ino p c = none
find_ino (suc fuel) ino p c =
    let rest = find_ino fuel ino (c.hash_next p) c in
    if p == null || c.ino p == ino then some p else rest

-- A miss, which does not set the node's number.
pub take_inode : (ino : ℕ) → Inodes → ℕ × Inodes
take_inode ino c =
    let p = c.lru_next lru_list_head in
    if p == lru_list_head || p == null then (null, c) else (
      p,
      record c {
        lru_next = put lru_list_head (c.lru_next p) c.lru_next;
        lru_prev = put (c.lru_next p) lru_list_head c.lru_prev;
        type = put p i_notcache c.type;
        hash_next = put (ihash ino) p (put p (c.hash_next (ihash ino)) c.hash_next);
        hash_prev = put p (ihash ino) c.hash_prev;
      },
    )

-- The inode or NULL; `none` means that the fuel ran out in a chain. The device is not used.
pub get_cached_inode : (fuel ino : ℕ) → Inodes → Option (ℕ × Inodes)
get_cached_inode fuel ino c =
    let first = c.hash_next (ihash ino) in
    if first == null then some (take_inode ino c) else elim (find_ino fuel ino first c) [
      | none ↦ none
      | some p ↦ some (
          if c.ino p == ino
          then (
            p,
            record c {
              flag = put p i_valid c.flag;
              access = put p (u32 (c.access p + 1)) c.access;
            },
          )
          else take_inode ino c)
    ]

-- `allocInode` from its call of `getCachedInode` to the clearing of the disk inode, of whose fields
-- type, flag and nlink are here.
pub new_inode : (fuel ino device : ℕ) → Inodes → Option (ℕ × Inodes)
new_inode fuel ino device c = elim (get_cached_inode fuel ino c) [
  | none ↦ none
  | some (p, c1) ↦ some (
    p,
    record c1 {
      ino = put p ino c1.ino;
      device = put p device c1.device;
      access = put p 0 c1.access;
      size = put p 0 c1.size;
      type = put p 0 c1.type;
      flag = put p 0 c1.flag;
      nlink = put p 0 c1.nlink;
    },
  )
]
