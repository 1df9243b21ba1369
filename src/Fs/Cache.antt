-- ===== src/Fs/Cache.antt =====
-- The cache of blocks of fs.c: a circular list of free buffers, and buckets of the buffers in use.
-- Each field of `struct block` is a function of the node's address. Node 0 is the node at NULL and
-- also the head of the list, since nothing ever sets `bcache.lruListHead`; nodes 1 to 128 are
-- `bcache.buf`, and the 128 nodes from 129 on are `bcache.blkHash`.
pub mod Disk
pub mod Free
pub mod Queue
pub mod Wait
pub mod Start
pub mod Clash
pub mod Load
pub mod Save
mod Tests
use orcas.Base.{
  ℕ, zero, suc, ◌+◌, ◌%◌, ◌==◌, ◌&&◌, ◌||◌, if◌then◌else◌, Bool, true, false, Option, none, some,
}
use orcas.Util.{Memory, put, minus_one}

pub record Cache : Type 0 where
  pub lru_prev : ℕ → ℕ
  pub lru_next : ℕ → ℕ
  pub hash_prev : ℕ → ℕ
  pub hash_next : ℕ → ℕ
  pub device : ℕ → ℕ
  pub block : ℕ → ℕ
  pub flags : ℕ → ℕ
  pub lru_cnt : ℕ → ℕ
  pub buf : ℕ → Memory

abbrev pub null : ℕ
null = 0

abbrev pub lru_list_head : ℕ
lru_list_head = 0

abbrev pub bcache_size : ℕ
bcache_size = 128

abbrev pub blk_hash_size : ℕ
blk_hash_size = 128

abbrev pub b_unused : ℕ
b_unused = 1

abbrev pub b_valid : ℕ
b_valid = 2

-- `&bcache.buf[i]`
abbrev pub buf_at : ℕ → ℕ
buf_at i = 1 + i

-- `&bcache.blkHash[BLKHASH(device, block)]`, for a block number that is not negative.
abbrev pub bucket : ℕ → ℕ
bucket block = 129 + block % blk_hash_size

-- The first loop of `blockCacheInit`, with the rounds left.
init_buffers : (left i : ℕ) → Cache → Cache
init_buffers zero i c = c
init_buffers (suc left) i c =
    let next = c.lru_next lru_list_head in
    init_buffers left (i + 1) (record c {
      device = put (buf_at i) minus_one c.device;
      block = put (buf_at i) minus_one c.block;
      flags = put (buf_at i) b_unused c.flags;
      lru_cnt = put (buf_at i) 0 c.lru_cnt;
      lru_next = put lru_list_head (buf_at i) (put (buf_at i) next c.lru_next);
      lru_prev =
          put (buf_at i) lru_list_head
            (if next == null then c.lru_prev else put next (buf_at i) c.lru_prev);
    })

-- The second.
init_buckets : (left i : ℕ) → Cache → Cache
init_buckets zero i c = c
init_buckets (suc left) i c = init_buckets left (i + 1) (record c {
  device = put (129 + i) minus_one c.device;
  block = put (129 + i) minus_one c.block;
  hash_next = put (129 + i) null c.hash_next;
})

-- The head is cleared before the loops, and the ring is closed between them.
pub block_cache_init : Cache → Cache
block_cache_init c =
    let c1 = init_buffers bcache_size 0 (record c {
      lru_prev = put lru_list_head null c.lru_prev;
      lru_next = put lru_list_head null c.lru_next;
    }) in
    init_buckets blk_hash_size 0 (record c1 {
      lru_prev = put lru_list_head (buf_at 0) c1.lru_prev;
      lru_next = put (buf_at 0) lru_list_head c1.lru_next;
    })

-- The `while` of `getCachedBlock`, which stops at a node of the device or of the block.
chain_find : (fuel device block p : ℕ) → Cache → Option ℕ
chain_find zero device block p c = none
chain_find (suc fuel) device block p c =
    let rest = chain_find fuel device block (c.hash_next p) c in
    if p == null || c.device p == device || c.block p == block then some p else rest

-- Also at NULL.
abbrev pub holds : (device block p : ℕ) → Cache → Bool
holds device block p c = c.device p == device && c.block p == block

-- A hit takes the buffer off the list of free ones, whether it stands there or not.
unfoldable pub take_hit : (p : ℕ) → Cache → Cache
take_hit p c =
    let next = put (c.lru_prev p) (c.lru_next p) c.lru_next in
    record c {
      flags = put p b_valid c.flags;
      lru_next = next;
      lru_prev = put (next p) (c.lru_prev p) c.lru_prev;
    }

-- A miss takes the first free buffer, whose flags it leaves as they are.
pub take_free : (device block : ℕ) → Cache → ℕ × Cache
take_free device block c =
    let p = c.lru_next lru_list_head in
    if p == lru_list_head || p == null then (null, c) else (
      p,
      record c {
        lru_next = put lru_list_head (c.lru_next p) c.lru_next;
        lru_prev = put (c.lru_next p) lru_list_head c.lru_prev;
        device = put p device c.device;
        block = put p block c.block;
        lru_cnt = put p 0 c.lru_cnt;
        hash_next = put (bucket block) p (put p (c.hash_next (bucket block)) c.hash_next);
        hash_prev = put p (bucket block) c.hash_prev;
      },
    )

-- The buffer that is returned, and the cache; `none` means that the fuel ran out in a chain.
pub get_cached_block : (fuel device block : ℕ) → Cache → Option (ℕ × Cache)
get_cached_block fuel device block c =
    let first = c.hash_next (bucket block) in
    if first == null
    then some (take_free device block c)
    else elim (chain_find fuel device block first c) [
      | none ↦ none
      | some p ↦
          some (if holds device block p c then (p, take_hit p c) else take_free device block c)
    ]

-- The `while` of `relCachedBlock`, which looks one node ahead.
pub chain_before : (fuel blk p : ℕ) → Cache → Option ℕ
chain_before zero blk p c = none
chain_before (suc fuel) blk p c =
    let q = c.hash_next p in
    let rest = chain_before fuel blk q c in
    if q == null || c.device q == c.device blk || c.block q == c.block blk then some p else rest

-- The unlinking behind it; the node ahead is read also where it is NULL.
unlink : (blk p : ℕ) → Cache → Cache
unlink blk p c =
    if holds (c.device blk) (c.block blk) (c.hash_next p) c
    then record c {
      hash_next = put p (c.hash_next blk) c.hash_next;
      hash_prev =
          if put p (c.hash_next blk) c.hash_next blk == null
          then c.hash_prev
          else put (put p (c.hash_next blk) c.hash_next blk) p c.hash_prev;
    }
    else c

-- The rest of `relCachedBlock`: the buffer goes to the tail of the list.
unfoldable pub put_free : (blk : ℕ) → Cache → Cache
put_free blk c =
    let next = put (c.lru_prev lru_list_head) blk c.lru_next in
    record c {
      hash_prev = put blk null c.hash_prev;
      hash_next = put blk null c.hash_next;
      flags = put blk b_unused c.flags;
      lru_next = put blk lru_list_head next;
      lru_prev = put lru_list_head blk (put blk (c.lru_prev lru_list_head) c.lru_prev);
    }

unfoldable pub rel_cached_block : (fuel blk : ℕ) → Cache → Option Cache
unfolding unlink
rel_cached_block fuel blk c =
    let first = c.hash_next (bucket (c.block blk)) in
    if first == null then some (put_free blk c) else elim (chain_before fuel blk first c) [
      | none ↦ none
      | some p ↦ some (put_free blk (unlink blk p c))
    ]
