-- ===== src/Fs/Cache/Clash.antt =====
-- A hit takes a buffer off the ring of free ones once more.
use orcas.Base.{ℕ, suc, ◌≡◌, ◌≢◌, ◌<◌, sym, ap, ◌∙◌, arith, List, ◌∷◌, some}
use orcas.Util.{put}
use orcas.Fs.Cache.{Cache, null, lru_list_head, take_free, take_hit, get_cached_block, bucket}
use orcas.Fs.Cache.Disk.{buffer_of, IsCached, get_cached_block-hit}
use orcas.Fs.Cache.Free.{IsFree}

-- The cache after a miss that takes the buffer `x`.
abbrev popped : (device block x : ℕ) → Cache → Cache
popped device block x c = record c {
  lru_next = put lru_list_head (c.lru_next x) c.lru_next;
  lru_prev = put (c.lru_next x) lru_list_head c.lru_prev;
  device = put x device c.device;
  block = put x block c.block;
  lru_cnt = put x 0 c.lru_cnt;
  hash_next = put (bucket block) x (put x (c.hash_next (bucket block)) c.hash_next);
  hash_prev = put x (bucket block) c.hash_prev;
}

get_cached_block-popped :
    (fuel device block x : ℕ) (c : Cache)
    → buffer_of block c ≡ null
    → c.lru_next lru_list_head ≡ x
    → x ≢ null
    → get_cached_block fuel device block c ≡ some (x, popped device block x c)
unfolding get_cached_block take_free
get_cached_block-popped fuel device block x c empty first ne =
    rw (empty, first) (ground (arith, ne))

relinked : (a w y : ℕ) (next : ℕ → ℕ) → a ≡ lru_list_head → w ≡ y → put a w next lru_list_head ≡ y
relinked a w y next head same = ground (arith, head, same)

-- With two free buffers in front, read two blocks, the first of them again, and then a third: the
-- third block gets the buffer that the second one is still in. For the hit on the first block
-- unlinks its buffer by the links that it had on the ring of free ones, and so puts the second
-- buffer back in front.
pub get_cached_block-clash :
    (fuel b1 b2 b3 x y : ℕ) (xs : List ℕ) (c : Cache)
    → IsFree c (x ∷ y ∷ xs)
    → x < 129
    → y < 129
    → buffer_of b1 c ≡ null
    → buffer_of b2 c ≡ null
    → buffer_of b3 c ≡ null
    → bucket b1 ≢ bucket b2
    → bucket b1 ≢ bucket b3
    → bucket b2 ≢ bucket b3
    → (c1 : Cache) × (c2 : Cache) × (c3 : Cache) × (c4 : Cache) × (get_cached_block
          (suc fuel)
          0
          b1
          c
        ≡ some (x, c1))
      × (get_cached_block (suc fuel) 0 b2 c1 ≡ some (y, c2))
      × (get_cached_block (suc fuel) 0 b1 c2 ≡ some (x, c3))
      × (buffer_of b2 c3 ≡ y)
      × (get_cached_block (suc fuel) 0 b3 c3 ≡ some (y, c4))
unfolding take_hit
get_cached_block-clash fuel b1 b2 b3 x y xs c h low_x low_y e1 e2 e3 apart12 apart13 apart23 =
    let (first, back, (second, _, _)) = h.links in
    let ((x0, (y0, _)), ((xy, _), _)) = h.distinct in
    let c1 : Cache = popped 0 b1 x c in
    let c2 : Cache = popped 0 b2 y c1 in
    let c3 : Cache = take_hit x c2 in
    let held : buffer_of b1 c2 ≡ x = ground (arith, apart12) in
    let found : IsCached b1 c2 = record {
      not_null = rw held (λ e. x0 (sym e));
      its_device = rw held (ground (arith, xy));
      its_block = rw held (ground (arith, xy));
    } in
    let links_back : c2.lru_prev x ≡ lru_list_head = ground (arith, second, back, xy) in
    let links_on : c2.lru_next x ≡ y = ground (arith, second, x0) in
    (
      c1,
      c2,
      c3,
      popped 0 b3 y c3,
      get_cached_block-popped (suc fuel) 0 b1 x c e1 first (λ e. x0 (sym e)),
      get_cached_block-popped (suc fuel) 0 b2 y c1 (ground (arith, apart12, e2))
          (ground (arith, second)) (λ e. y0 (sym e)),
      get_cached_block-hit fuel b1 c2 found ∙ ap (λ p. some (p, take_hit p c2)) held,
      ground arith,
      get_cached_block-popped (suc fuel) 0 b3 y c3 (ground (arith, apart13, apart23, e3))
          (relinked _ _ y c2.lru_next links_back links_on) (λ e. y0 (sym e)),
    )
