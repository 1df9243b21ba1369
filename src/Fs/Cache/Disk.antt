-- ===== src/Fs/Cache/Disk.antt =====
-- `blockRead` and `blockWrite` of fs.c: the cache of blocks on a drive. The locks and the messages
-- are left out.
use native.Mathlib.Decide.{ℕ_discrete}
use orcas.Base.{
  ℕ, zero, suc, ◌+◌, ◌==◌, ◌≡◌, ◌≢◌, refl, arith, if◌then◌else◌, Option, none, some, List, [], ◌∷◌,
  ◌++◌, get_or, leb, ltb, ◌&&◌, ◌-◌, fun_ext, ap,
}
use orcas.Port.{outb}
use orcas.Ide.{Block, select_sector, hard_read_wait, hard_write, ide_cmd_port, ide_cmd_r_pio}
use orcas.Ide.Disk.{Drive, run, data_words}
use orcas.Util.{Memory, put}
use orcas.Fs.Cache.{Cache, null, bucket, b_valid, get_cached_block, take_hit, chain_find}

-- The cache, the drive, and the status bytes that it answers.
pub record Store : Type 0 where
  pub cache : Cache
  pub disk : Drive
  pub answers : List ℕ

infixl 5 ◌>>=◌
abbrev pub ◌>>=◌ : {A B : Type 0} → Option A → (A → Option B) → Option B
◌>>=◌ m f = elim m [ none ↦ none | some a ↦ f a ]

-- `memmove` between two objects.
pub copy : (dst src cnt : ℕ) → (from to : Memory) → Memory
copy dst src zero from to = to
copy dst src (suc cnt) from to = copy (dst + 1) (src + 1) cnt from (put dst (from src) to)

-- The first `cnt` bytes of a buffer, as the transfers take them.
unfoldable pub bytes : (cnt i : ℕ) → Memory → List ℕ
bytes zero i buf = []
bytes (suc cnt) i buf = buf i ∷ bytes cnt (i + 1) buf

unfoldable pub block_of : ℕ → Cache → Block
unfolding bytes
block_of p c = record {
  flags = c.flags p;
  device = c.device p;
  block = c.block p;
  buf = bytes 512 0 (c.buf p);
}

-- The buffer `p` after a transfer.
unfoldable pub with_block : ℕ → Block → Cache → Cache
with_block p blk c = record c {
  flags = put p blk.flags c.flags;
  buf = λ q. if q == p then (λ i. get_or blk.buf i 0) else c.buf q;
}

-- The result of `hardReadWait` on the cached buffer `p`, and the store with the drive's answer.
unfoldable pub read_into : ℕ → Store → Option (ℕ × Store)
unfolding block_of with_block
read_into p s =
    let blk = block_of p s.cache in
    let sent = select_sector blk ++ (outb ide_cmd_port ide_cmd_r_pio ∷ []) in
    elim (hard_read_wait blk s.answers (data_words (run sent s.disk))) [
      | none ↦ none
      | some (result, events, after, rest) ↦ some (
        result,
        record { cache = with_block p after s.cache; disk = run events s.disk; answers = rest },
      )
    ]

-- `blockRead` where the flags of the buffer `p` are not B_VALID: the buffer or NULL.
unfoldable pub read_missed : ℕ → Store → Option (ℕ × Store)
unfolding read_into
read_missed p s = elim (read_into p s) [
  | none ↦ none
  | some (result, s1) ↦
      if result == 0
      then some (p, record s1 { cache = record s1.cache { flags = put p b_valid s1.cache.flags } })
      else some (null, s1)
]

unfoldable pub block_read : (fuel device block : ℕ) → Store → Option (ℕ × Store)
unfolding get_cached_block read_missed
block_read fuel device block s = elim (get_cached_block fuel device block s.cache) [
  | none ↦ none
  | some (p, c) ↦
      let s1 = record s { cache = c } in
      if c.flags p == b_valid then some (p, s1) else read_missed p s1
]

-- `blockWrite` of a block with these contents: the result of `hardWrite`.
unfoldable pub block_write : (fuel device block : ℕ) (buf : Memory) → Store → Option (ℕ × Store)
unfolding get_cached_block copy block_of with_block
block_write fuel device block buf s = elim (get_cached_block fuel device block s.cache) [
  | none ↦ none
  | some (p, c) ↦
      let filled = record c { buf = λ q. if q == p then copy 0 0 512 buf (c.buf p) else c.buf q } in
      let (result, events, after) = hard_write (block_of p filled) in
      some (
        result,
        record s {
          cache = record filled { flags = put p after.flags filled.flags };
          disk = run events s.disk;
        },
      )
]

-- The buffer that stands first in a block's bucket.
abbrev pub buffer_of : (block : ℕ) → Cache → ℕ
buffer_of block c = c.hash_next (bucket block)

-- A block of drive 0 stands first in its bucket.
pub record IsCached (block : ℕ) (c : Cache) : Type 0 where
  pub not_null : buffer_of block c ≢ null
  pub its_device : c.device (buffer_of block c) ≡ 0
  pub its_block : c.block (buffer_of block c) ≡ block

-- Such a block is found, whatever else the cache holds.
pub get_cached_block-hit :
    (fuel block : ℕ) (c : Cache)
    → IsCached block c
    → get_cached_block (suc fuel) 0 block c
      ≡ some (buffer_of block c, take_hit (buffer_of block c) c)
unfolding get_cached_block chain_find
get_cached_block-hit fuel block c h = ground (arith, h.not_null, h.its_device, h.its_block)

pub copy-copies :
    (dst src cnt : ℕ) (from to : Memory) (a : ℕ)
    → copy dst src cnt from to a
      ≡ (if leb dst a && ltb a (dst + cnt) then from (src + (a - dst)) else to a)
unfolding copy
copy-copies dst src zero from to a = ground arith
copy-copies dst src (suc cnt) from to a =
    ground (arith, copy-copies (dst + 1) (src + 1) cnt from (put dst (from src) to) a)

-- A read of a cached block leaves the drive alone.
pub block_read-hit :
    (fuel block : ℕ) (s : Store)
    → IsCached block s.cache
    → let p = buffer_of block s.cache in
      block_read (suc fuel) 0 block s ≡ some (p, record s { cache = take_hit p s.cache })
unfolding block_read take_hit
block_read-hit fuel block s h =
    rw (get_cached_block-hit fuel block s.cache h, block_read) (ground arith)

copy-same : (cnt : ℕ) (m : Memory) (a : ℕ) → copy 0 0 cnt m m a ≡ m a
copy-same cnt m a =
    let e : 0 + (a - 0) ≡ a = omega arith in ground (arith, copy-copies 0 0 cnt m m a, ap m e)

own_buffer :
    (buf : ℕ → Memory) (p q a : ℕ)
    → (if q == p then copy 0 0 512 (buf p) (buf p) else buf q) a ≡ buf q a
own_buffer buf p q a = elim (ℕ_discrete q p) [
  | yes e ↦ rw e (ground (arith, copy-same 512 (buf p) a))
  | no ne ↦ ground arith
]

-- A write of a cached block from its own buffer, as `write` of fs.c makes it, changes no buffer.
pub block_write-hit :
    (fuel block : ℕ) (s : Store)
    → IsCached block s.cache
    → (s' : Store) × (block_write (suc fuel) 0 block (s.cache.buf (buffer_of block s.cache)) s
        ≡ some (0, s'))
      × (s'.cache.hash_next ≡ s.cache.hash_next)
      × (s'.cache.device ≡ s.cache.device)
      × (s'.cache.block ≡ s.cache.block)
      × (s'.cache.buf ≡ s.cache.buf)
unfolding block_write take_hit hard_write block_of
block_write-hit fuel block s h =
    rw (get_cached_block-hit fuel block s.cache h, block_write)
      (
        _,
        refl,
        refl,
        refl,
        refl,
        fun_ext λ q. fun_ext λ a. own_buffer s.cache.buf (buffer_of block s.cache) q a,
      )
