-- ===== src/Fs/Cache/Queue.antt =====
-- What a miss and a release do to the queue of free buffers.
use orcas.Base.{ℕ, suc, ◌≡◌, ◌≢◌, refl, sym, ap, ◌∙◌, arith, List, [], ◌∷◌, ◌++◌, some}
use orcas.Util.{put}
use orcas.Fs.Cache.{
  Cache, null, lru_list_head, take_free, put_free, unlink, chain_before, rel_cached_block,
  get_cached_block, bucket, b_unused,
}
use orcas.Fs.Cache.Disk.{buffer_of}
use orcas.Fs.Cache.Free.{
  IsFree, NotIn, last, pop, pop_tail, Links-append, Links-put_prev, NotIn-append, Distinct-append,
  last-append,
}

take_free-IsFree :
    (device block x : ℕ) (xs : List ℕ) (c : Cache)
    → IsFree c (x ∷ xs)
    → (c' : Cache) × (take_free device block c ≡ (x, c'))
      × IsFree c' xs
      × (buffer_of block c' ≡ x)
      × (c'.device x ≡ device)
      × (c'.block x ≡ block)
      × (c'.flags ≡ c.flags)
unfolding take_free
take_free-IsFree device block x xs c h =
    let (first, back, l) = h.links in
    let ((n0, _), _) = h.distinct in
    let c' : Cache = record c {
      lru_next = put lru_list_head (c.lru_next x) c.lru_next;
      lru_prev = put (c.lru_next x) lru_list_head c.lru_prev;
      device = put x device c.device;
      block = put x block c.block;
      lru_cnt = put x 0 c.lru_cnt;
      hash_next = put (bucket block) x (put x (c.hash_next (bucket block)) c.hash_next);
      hash_prev = put x (bucket block) c.hash_prev;
    } in
    (
      c',
      rw first (ground (arith, n0)),
      record {
        links = pop c.lru_next c.lru_prev x xs h.distinct l;
        tail = pop_tail c.lru_next c.lru_prev x xs h.distinct l h.tail;
        distinct = (h.distinct.0.1, h.distinct.1.1);
      },
      ground arith,
      ground arith,
      ground arith,
      refl,
    )

-- A block whose bucket is empty gets the free buffer that was used least recently: the queue loses
-- its first element, and the buffer stands first in the bucket under the block's number. Its flags
-- stay as they were.
pub get_cached_block-miss :
    (fuel device block x : ℕ) (xs : List ℕ) (c : Cache)
    → IsFree c (x ∷ xs)
    → buffer_of block c ≡ null
    → (c' : Cache) × (get_cached_block fuel device block c ≡ some (x, c'))
      × IsFree c' xs
      × (buffer_of block c' ≡ x)
      × (c'.device x ≡ device)
      × (c'.block x ≡ block)
      × (c'.flags ≡ c.flags)
unfolding get_cached_block
get_cached_block-miss fuel device block x xs c h empty =
    let (c', taken, free, first, its_device, its_block, its_flags) =
      take_free-IsFree device block x xs c h in
    (c', rw empty (ap some taken), free, first, its_device, its_block, its_flags)

-- The tail of the ring after `put_free`.
pub put_free-IsFree :
    (blk : ℕ) (xs : List ℕ) (c : Cache)
    → IsFree c xs
    → NotIn blk (lru_list_head ∷ xs)
    → IsFree (put_free blk c) (xs ++ (blk ∷ []))
unfolding put_free
put_free-IsFree blk xs c h fresh =
    let (n0, nx) = fresh in
    let (d0, d) = h.distinct in
    let grown =
      Links-append c.lru_next c.lru_prev blk lru_list_head xs (n0, (n0, nx)) h.distinct h.links in
    let apart = NotIn-append lru_list_head blk xs (λ e. n0 (sym e)) d0 in
    let next = put blk lru_list_head (put (last lru_list_head xs) blk c.lru_next) in
    let prev = put blk (last lru_list_head xs) c.lru_prev in
    record {
      links =
          rw h.tail (
            Links-put_prev next prev lru_list_head blk lru_list_head (xs ++ (blk ∷ [])) apart
              grown);
      tail = sym (last-append blk lru_list_head xs);
      distinct = (apart, Distinct-append blk xs nx d);
    }

-- A release puts a buffer that is in use behind the free ones and marks it unused. But the search in
-- its bucket starts behind the first buffer: one that stands alone in its bucket stays there, where
-- the next search for its block still finds it (unless the bytes at NULL look like the block).
pub rel_cached_block-IsFree :
    (fuel blk : ℕ) (xs : List ℕ) (c : Cache)
    → IsFree c xs
    → NotIn blk (lru_list_head ∷ xs)
    → buffer_of (c.block blk) c ≡ blk
    → c.hash_next blk ≡ null
    → c.device null ≢ c.device blk
    → (c' : Cache) × (rel_cached_block (suc fuel) blk c ≡ some c')
      × IsFree c' (xs ++ (blk ∷ []))
      × (c'.flags blk ≡ b_unused)
      × (buffer_of (c.block blk) c' ≡ blk)
unfolding rel_cached_block chain_before unlink put_free
rel_cached_block-IsFree fuel blk xs c h fresh alone end other = (
  put_free blk c,
  rw (alone, end) (ground (arith, fresh.0, other)),
  put_free-IsFree blk xs c h fresh,
  ground arith,
  let held : c.hash_next (bucket (c.block blk)) ≡ blk = alone in
      let apart : bucket (c.block blk) ≢ blk =
        λ e. fresh.0 (sym (sym end ∙ ap c.hash_next (sym e) ∙ held)) in
      ground (arith, apart, held),
)
