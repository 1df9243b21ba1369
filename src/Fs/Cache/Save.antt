-- ===== src/Fs/Cache/Save.antt =====
-- A write of a block that is not in the cache.
use orcas.Base.{
  ℕ, suc, ◌+◌, ◌-◌, ◌%◌, ◌^◌, ◌<◌, ◌==◌, ◌≡◌, refl, true, sym, ap, ◌∙◌, fun_ext, arith, ltb, ◌&&◌,
  if◌then◌else◌, some, List, ◌∷◌,
}
use orcas.Ide.{Block, hard_write, to_words}
use orcas.Ide.Disk.{Drive, run, hard_write-sectors}
use orcas.Util.{Memory, put}
use orcas.Fs.Cache.{Cache, null, b_valid, get_cached_block}
use orcas.Fs.Cache.Disk.{
  Store, block_of, block_write, buffer_of, copy, copy-copies, bytes, IsCached,
}
use orcas.Fs.Cache.Free.{IsFree}
use orcas.Fs.Cache.Queue.{get_cached_block-miss}

-- The first `cnt` bytes of one buffer over another.
abbrev pub over : (cnt : ℕ) → (from to : Memory) → Memory
over cnt from to a = if ltb a cnt then from a else to a

copy-over : (cnt : ℕ) (from to : Memory) (a : ℕ) → copy 0 0 cnt from to a ≡ over cnt from to a
copy-over cnt from to a =
    let here : 0 + (a - 0) ≡ a = omega arith in
    ground (arith, copy-copies 0 0 cnt from to a, ap from here)

-- The cache with the buffer `x` filled.
abbrev filled : (x : ℕ) → Memory → Cache → Cache
filled x buf c = record c { buf = λ q. if q == x then copy 0 0 512 buf (c.buf x) else c.buf q }

abbrev saved : (x : ℕ) → Memory → Cache → Store → Store
saved x buf c s = record s {
  cache = record (filled x buf c) { flags = put x b_valid c.flags };
  disk = run (hard_write (block_of x (filled x buf c))).1 s.disk;
}

block_write-got :
    (fuel block x : ℕ) (buf : Memory) (s : Store) (c : Cache)
    → get_cached_block fuel 0 block s.cache ≡ some (x, c)
    → block_write fuel 0 block buf s ≡ some (0, saved x buf c s)
unfolding block_write hard_write
block_write-got fuel block x buf s c got = rw (got, block_write) refl

on_disk :
    (x block : ℕ) (buf : Memory) (c : Cache) (d : Drive)
    → c.device x ≡ 0
    → c.block x ≡ block
    → block < 2 ^ 28
    → (run (hard_write (block_of x (filled x buf c))).1 d).sectors 0 block
      ≡ (if d.asks then to_words (bytes 512 0 ((filled x buf c).buf x)) else d.sectors 0 block)
unfolding block_of
on_disk x block buf c d its_device its_block near =
    let blk : Block = block_of x (filled x buf c) in
    let in_reach : blk.block < 2 ^ 28 = rw its_block near in
    let own : (0 == c.device x % 2 && block == c.block x) ≡ true =
      ground (arith, its_device, its_block) in
    hard_write-sectors blk d 0 block in_reach
    ∙ ap (λ b. if d.asks && b then to_words blk.buf else d.sectors 0 block) own
    ∙ ground arith

own_filled : (x : ℕ) (buf : Memory) (c : Cache) → (filled x buf c).buf x ≡ over 512 buf (c.buf x)
own_filled x buf c = fun_ext λ a. ground (arith, copy-over 512 buf (c.buf x) a)

twice : (from to : Memory) → over 512 from to ≡ over 512 from (over 512 from to)
twice from to = fun_ext λ a. ground arith

-- A block below 2^28 whose bucket is empty is written by way of the free buffer that was used least
-- recently, which then stands first in its bucket and holds the written bytes, whatever was in it.
-- Its own sector of drive 0 gets them if the drive asks for data when the words arrive, and is as
-- before otherwise; the result is 0 in both cases.
pub block_write-saves :
    (fuel block x : ℕ) (xs : List ℕ) (buf : Memory) (s : Store)
    → IsFree s.cache (x ∷ xs)
    → buffer_of block s.cache ≡ null
    → block < 2 ^ 28
    → (s1 : Store) × (block_write (suc fuel) 0 block buf s ≡ some (0, s1))
      × IsFree s1.cache xs
      × IsCached block s1.cache
      × (buffer_of block s1.cache ≡ x)
      × (s1.cache.buf x ≡ over 512 buf (s1.cache.buf x))
      × (s1.disk.sectors 0 block ≡ (
          if s.disk.asks then to_words (bytes 512 0 (s1.cache.buf x)) else s.disk.sectors 0 block))
block_write-saves fuel block x xs buf s free empty near =
    let (c, got, rest, held, its_device, its_block, its_flags) =
      get_cached_block-miss (suc fuel) 0 block x xs s.cache free empty in
    let ((x0, _), _) = free.distinct in
    (
      saved x buf c s,
      block_write-got (suc fuel) block x buf s c got,
      record { links = rest.links; tail = rest.tail; distinct = rest.distinct },
      record {
        not_null = rw held (λ z. x0 (sym z));
        its_device = rw held its_device;
        its_block = rw held its_block;
      },
      held,
      own_filled x buf c ∙ twice buf (c.buf x) ∙ ap (over 512 buf) (sym (own_filled x buf c)),
      on_disk x block buf c s.disk its_device its_block near,
    )
