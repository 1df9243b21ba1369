-- ===== src/Fs/Cache/Start.antt =====
-- The cache after `blockCacheInit`.
use mathlib.Core.Path.{subst}
use orcas.Base.{
  ℕ, zero, suc, ◌+◌, ◌<◌, ◌==◌, ◌&&◌, ◌≡◌, refl, sym, ap, ◌∙◌, arith, ltb, leb, ==_ne,
  if◌then◌else◌, List, [], ◌∷◌,
}
use orcas.Util.{put}
use orcas.Fs.Cache.{
  Cache, null, lru_list_head, bcache_size, blk_hash_size, init_buffers, init_buckets,
  block_cache_init, bucket, buf_at,
}
use orcas.Fs.Cache.Disk.{buffer_of}
use orcas.Fs.Cache.Free.{
  IsFree, IsRing, NotIn, Distinct, Links, last, Links-put_next, Links-put_prev, NotIn-last,
}

-- `n`, `n - 1`, down to 1.
pub down : ℕ → List ℕ
down zero = []
down (suc n) = suc n ∷ down n

pub NotIn-down : (a n : ℕ) → n < a → NotIn a (down n)
unfolding down
NotIn-down a zero h = tt
NotIn-down a (suc n) h = (λ e. absurd (omega arith), NotIn-down a n (omega arith))

pub head-NotIn-down : (n : ℕ) → NotIn lru_list_head (down n)
unfolding down
head-NotIn-down zero = tt
head-NotIn-down (suc n) = (λ e. absurd (omega arith), head-NotIn-down n)

pub down-Distinct : (n : ℕ) → Distinct (down n)
unfolding down
down-Distinct zero = tt
down-Distinct (suc n) = (NotIn-down (suc n) n (omega arith), down-Distinct n)

pub last-down : (p n : ℕ) → last p (down (suc n)) ≡ 1
unfolding down
last-down p zero = refl
last-down p (suc n) = last-down (suc (suc n)) n

-- A new first node, as a round of the loop links it.
pub push :
    (next prev : ℕ → ℕ) (a : ℕ) (xs : List ℕ)
    → NotIn a (lru_list_head ∷ xs)
    → Distinct (lru_list_head ∷ xs)
    → Links next prev lru_list_head xs
    → Links
        (put lru_list_head a (put a (next lru_list_head) next))
        (put a lru_list_head
          (if next lru_list_head == null then prev else put (next lru_list_head) a prev))
        lru_list_head
        (a ∷ xs)
push next prev a [] (n0, _) d l = (ground arith, ground arith, ground (arith, l))
push next prev a (y ∷ ys) (n0, (na, nx)) ((d0, dx), (dy, _)) (e, b, b_links) =
    let linked : (if next lru_list_head == null then prev else put (next lru_list_head) a prev)
        ≡ put y a prev =
      rw e (ap (λ b. if b then prev else put y a prev) (==_ne y null (λ z. d0 (sym z)))) in
    let next' = put lru_list_head a (put a (next lru_list_head) next) in
    let one = Links-put_next next prev a (next lru_list_head) y ys (na, nx) b_links in
    let two =
      Links-put_next (put a (next lru_list_head) next) prev lru_list_head a y ys (d0, dx) one in
    let three = Links-put_prev next' prev y a y ys dy two in
    let four = Links-put_prev next' (put y a prev) a lru_list_head y ys nx three in
    (
      ground arith,
      ground arith,
      (
        ground (arith, e),
        ground (arith, linked, ap (λ f. f y) linked),
        subst (λ f. Links next' (put a lru_list_head f) y ys) (sym linked) four,
      ),
    )

pub down-step : (i : ℕ) → (1 + i) ∷ down i ≡ down (i + 1)
unfolding down
down-step i =
    let first : 1 + i ≡ suc i = omega arith in
    let count : suc i ≡ i + 1 = omega arith in ap (λ x. x ∷ down i) first ∙ ap down count

-- The links after a round that pushes node `1 + i`.
abbrev pub pushed_next : (i : ℕ) → (ℕ → ℕ) → ℕ → ℕ
pushed_next i next = put lru_list_head (1 + i) (put (1 + i) (next lru_list_head) next)

abbrev pub pushed_prev : (i : ℕ) → (next prev : ℕ → ℕ) → ℕ → ℕ
pushed_prev i next prev =
    put (1 + i) lru_list_head
      (if next lru_list_head == null then prev else put (next lru_list_head) (1 + i) prev)

pub push-down :
    (i : ℕ) (next prev : ℕ → ℕ)
    → Links next prev lru_list_head (down i)
    → Links (pushed_next i next) (pushed_prev i next prev) lru_list_head (down (i + 1))
push-down i next prev l =
    let fresh = NotIn-down (1 + i) i (omega arith) in
    let pushed =
      push next prev (1 + i) (down i) ((λ e. absurd (omega arith)), fresh)
        (head-NotIn-down i, down-Distinct i) l in
    subst (Links (pushed_next i next) (pushed_prev i next prev) lru_list_head) (down-step i) pushed

-- The links after rounds of the first loop.
init_buffers-Links :
    (left i : ℕ) (c : Cache)
    → Links c.lru_next c.lru_prev lru_list_head (down i)
    → let c' = init_buffers left i c in
      Links c'.lru_next c'.lru_prev lru_list_head (down (i + left))
unfolding init_buffers
init_buffers-Links zero i c l =
    let same : i ≡ i + 0 = omega arith in
    subst (λ n. Links c.lru_next c.lru_prev lru_list_head (down n)) same l
init_buffers-Links (suc left) i c l =
    let same : i + 1 + left ≡ i + suc left = omega arith in
    let rest = init_buffers-Links left (i + 1) _ (push-down i c.lru_next c.lru_prev l) in
    subst
      (λ n.
        Links (init_buffers (suc left) i c).lru_next (init_buffers (suc left) i c).lru_prev
          lru_list_head (down n))
      same rest

init_buckets-next : (left i : ℕ) (c : Cache) → (init_buckets left i c).lru_next ≡ c.lru_next
unfolding init_buckets
init_buckets-next zero i c = refl
init_buckets-next (suc left) i c = init_buckets-next left (i + 1) _

init_buckets-prev : (left i : ℕ) (c : Cache) → (init_buckets left i c).lru_prev ≡ c.lru_prev
unfolding init_buckets
init_buckets-prev zero i c = refl
init_buckets-prev (suc left) i c = init_buckets-prev left (i + 1) _

init_buckets-hash :
    (left i q : ℕ) (c : Cache)
    → (init_buckets left i c).hash_next q
      ≡ (if leb (129 + i) q && ltb q (129 + i + left) then null else c.hash_next q)
unfolding init_buckets
init_buckets-hash zero i q c = ground arith
init_buckets-hash (suc left) i q c = init_buckets-hash left (i + 1) q _ ∙ ground arith

Links-end :
    (next prev : ℕ → ℕ) (p : ℕ) (xs : List ℕ)
    → Distinct (p ∷ xs)
    → Links next prev p xs
    → Links (put (last p xs) lru_list_head next) prev p xs
Links-end next prev p [] d l = ground arith
Links-end next prev p (x ∷ xs) (dp, d) (e, b, l) =
    (ground (arith, e, NotIn-last p x xs dp), b, Links-end next prev x xs d l)

pub start :
    (next prev : ℕ → ℕ)
    → Links (put lru_list_head null next) (put lru_list_head null prev) lru_list_head (down 0)
unfolding down
start next prev = refl

-- The ring closed behind the first node.
pub closed :
    (n : ℕ) (next prev next' prev' : ℕ → ℕ)
    → Links next prev lru_list_head (down (suc n))
    → next' ≡ put 1 lru_list_head next
    → prev' ≡ put lru_list_head 1 prev
    → IsRing next' prev' (down (suc n))
closed n next prev next' prev' l en ep =
    let xs : List ℕ = down (suc n) in
    let end : last lru_list_head xs ≡ 1 = last-down lru_list_head n in
    let distinct : Distinct (lru_list_head ∷ xs) =
      (head-NotIn-down (suc n), down-Distinct (suc n)) in
    let ring =
      subst (λ z. Links (put z lru_list_head next) prev lru_list_head xs) end
        (Links-end next prev lru_list_head xs distinct l) in
    let both =
      Links-put_prev (put 1 lru_list_head next) prev lru_list_head 1 lru_list_head xs
        (head-NotIn-down (suc n)) ring in
    record {
      links =
          subst (λ f. Links f prev' lru_list_head xs) (sym en)
            (subst (λ g. Links (put 1 lru_list_head next) g lru_list_head xs) (sym ep) both);
      tail = ap (λ g. g lru_list_head) ep ∙ sym end;
      distinct = distinct;
    }

-- After `blockCacheInit`, whatever was in memory before, the ring of free buffers runs from the last
-- buffer to the first, and every bucket is empty.
pub block_cache_init-IsFree :
    (block : ℕ) (c : Cache)
    → IsFree (block_cache_init c) (down bcache_size) × (buffer_of block (block_cache_init c) ≡ null)
unfolding block_cache_init
block_cache_init-IsFree block c =
    let c0 : Cache = record c {
      lru_prev = put lru_list_head null c.lru_prev;
      lru_next = put lru_list_head null c.lru_next;
    } in
    let c1 : Cache = init_buffers bcache_size 0 c0 in
    let c2 : Cache = record c1 {
      lru_prev = put lru_list_head (buf_at 0) c1.lru_prev;
      lru_next = put (buf_at 0) lru_list_head c1.lru_next;
    } in
    (
      closed 127 c1.lru_next c1.lru_prev _ _
          (init_buffers-Links bcache_size 0 c0 (start c.lru_next c.lru_prev))
          (init_buckets-next blk_hash_size 0 c2) (init_buckets-prev blk_hash_size 0 c2),
      init_buckets-hash blk_hash_size 0 (bucket block) c2 ∙ ground arith,
    )
