-- ===== src/Fs/Inodes/Start.antt =====
-- The cache of inodes after `inodeCacheInit`.
use mathlib.Core.Path.{subst}
use orcas.Base.{ℕ, zero, suc, ◌+◌, ◌&&◌, ◌≡◌, refl, ◌∙◌, arith, ltb, leb, if◌then◌else◌}
use orcas.Util.{put}
use orcas.Fs.Cache.{null, lru_list_head}
use orcas.Fs.Cache.Free.{Links, IsRing}
use orcas.Fs.Cache.Start.{down, push-down, closed, start}
use orcas.Fs.Inodes.{
  Inodes, ibuf_size, ihash_size, inode_at, ihash, init_ibuf, init_ihash, inode_cache_init,
}

init_ibuf-Links :
    (left i : ℕ) (c : Inodes)
    → Links c.lru_next c.lru_prev lru_list_head (down i)
    → let c' = init_ibuf left i c in Links c'.lru_next c'.lru_prev lru_list_head (down (i + left))
unfolding init_ibuf
init_ibuf-Links zero i c l =
    let same : i ≡ i + 0 = omega arith in
    subst (λ n. Links c.lru_next c.lru_prev lru_list_head (down n)) same l
init_ibuf-Links (suc left) i c l =
    let same : i + 1 + left ≡ i + suc left = omega arith in
    let rest = init_ibuf-Links left (i + 1) _ (push-down i c.lru_next c.lru_prev l) in
    subst
      (λ n.
        Links (init_ibuf (suc left) i c).lru_next (init_ibuf (suc left) i c).lru_prev lru_list_head
          (down n))
      same rest

init_ihash-next : (left i : ℕ) (c : Inodes) → (init_ihash left i c).lru_next ≡ c.lru_next
unfolding init_ihash
init_ihash-next zero i c = refl
init_ihash-next (suc left) i c = init_ihash-next left (i + 1) _

init_ihash-prev : (left i : ℕ) (c : Inodes) → (init_ihash left i c).lru_prev ≡ c.lru_prev
unfolding init_ihash
init_ihash-prev zero i c = refl
init_ihash-prev (suc left) i c = init_ihash-prev left (i + 1) _

init_ihash-hash :
    (left i q : ℕ) (c : Inodes)
    → (init_ihash left i c).hash_next q
      ≡ (if leb (129 + i) q && ltb q (129 + i + left) then null else c.hash_next q)
unfolding init_ihash
init_ihash-hash zero i q c = ground arith
init_ihash-hash (suc left) i q c = init_ihash-hash left (i + 1) q _ ∙ ground arith

-- After `inodeCacheInit`, whatever was in memory before, the ring of free inodes runs from the last
-- one to the first, and every bucket is empty.
pub inode_cache_init-IsRing :
    (ino : ℕ) (c : Inodes)
    → IsRing (inode_cache_init c).lru_next (inode_cache_init c).lru_prev (down ibuf_size)
      × ((inode_cache_init c).hash_next (ihash ino) ≡ null)
unfolding inode_cache_init
inode_cache_init-IsRing ino c =
    let c0 : Inodes = record c {
      lru_prev = put lru_list_head null c.lru_prev;
      lru_next = put lru_list_head null c.lru_next;
    } in
    let c1 : Inodes = init_ibuf ibuf_size 0 c0 in
    let c2 : Inodes = record c1 {
      lru_prev = put lru_list_head (inode_at 0) c1.lru_prev;
      lru_next = put (inode_at 0) lru_list_head c1.lru_next;
    } in
    (
      closed 127 c1.lru_next c1.lru_prev _ _
          (init_ibuf-Links ibuf_size 0 c0 (start c.lru_next c.lru_prev))
          (init_ihash-next ihash_size 0 c2) (init_ihash-prev ihash_size 0 c2),
      init_ihash-hash ihash_size 0 (ihash ino) c2 ∙ ground arith,
    )
