-- ===== src/Fs/Transfer/Read.antt =====
-- The blocks that `read` takes, one after the other.
use orcas.Base.{
  ℕ, zero, suc, ◌+◌, ◌-◌, ◌*◌, ◌/◌, ◌%◌, ◌≤◌, ◌<◌, ◌≡◌, refl, ap, ap₂, ◌∙◌, ltb, leb, ◌&&◌,
  if◌then◌else◌, arith, some, true, false, Option, inl, inr, Bool-cases, ltb_false→le, ltb→lt,
}
use orcas.Util.{Memory}
use orcas.Fs.Cache.{Cache, bucket, take_hit}
use orcas.Fs.Cache.Disk.{Store, block_read-hit, buffer_of, copy, copy-copies}
use orcas.Fs.Transfer.{bsize, further, read_chunk, read_mid, read_blocks}
use orcas.Fs.Transfer.Chunk.{byte, AreCached, AreCached-same, SameIndex}

module _ (block : ℕ → ℕ) where
  -- The bytes at `pb` are those of the file from `a` on, up to `n` of them; the others are as
  -- before, and so are the buffers.
  pub record Reads (a pb n : ℕ) (mem mem' : Memory) (c c' : Cache) : Type 0 where
    pub index : SameIndex c c'
    pub buf_same : c'.buf ≡ c.buf
    pub taken :
        (x : ℕ)
        → mem' x ≡ (if leb pb x && ltb x (pb + n) then byte block c (a + (x - pb)) else mem x)

  Reads-none : (a pb : ℕ) (mem : Memory) (c : Cache) → Reads a pb 0 mem mem c c
  Reads-none a pb mem c = record {
    index = record { hash_same = refl; device_same = refl; block_same = refl };
    buf_same = refl;
    taken = λ x. ground arith;
  }

  byte-same :
      (c c1 : Cache) → SameIndex c c1 → c1.buf ≡ c.buf → (i : ℕ) → byte block c1 i ≡ byte block c i
  byte-same c c1 e same i =
      ap₂ (λ buf next. buf (next (bucket (block (i / bsize)))) (i % bsize)) same e.hash_same

  -- One read right behind another.
  Reads-then :
      (a pb n m a' pb' total : ℕ) (mem mem1 mem2 : Memory) (c c1 c2 : Cache)
      → a' ≡ a + n
      → pb' ≡ pb + n
      → total ≡ n + m
      → Reads a pb n mem mem1 c c1
      → Reads a' pb' m mem1 mem2 c1 c2
      → Reads a pb total mem mem2 c c2
  Reads-then a pb n m a' pb' total mem mem1 mem2 c c1 c2 ea ep et u v = record {
    index = record {
      hash_same = v.index.hash_same ∙ u.index.hash_same;
      device_same = v.index.device_same ∙ u.index.device_same;
      block_same = v.index.block_same ∙ u.index.block_same;
    };
    buf_same = v.buf_same ∙ u.buf_same;
    taken =
        λ x. v.taken x ∙ both x (u.taken x) (byte-same c c1 u.index u.buf_same (a' + (x - pb')));
  }
    where
      both :
          (x : ℕ)
          → mem1 x ≡ (if leb pb x && ltb x (pb + n) then byte block c (a + (x - pb)) else mem x)
          → byte block c1 (a' + (x - pb')) ≡ byte block c (a' + (x - pb'))
          → (if leb pb' x && ltb x (pb' + m) then byte block c1 (a' + (x - pb')) else mem1 x)
            ≡ (if leb pb x && ltb x (pb + total) then byte block c (a + (x - pb)) else mem x)
      both x e same = elim (Bool-cases (ltb x (pb + n))) [
        | inl lt ↦ ground (arith, e)
        | inr ge ↦
            let behind : pb + n ≤ x = ltb_false→le x (pb + n) ge in
            let here : a' + (x - pb') ≡ a + (x - pb) = omega arith in
            ground (arith, e, same, ap (byte block c) here)
      ]

  -- A transfer that succeeds and takes `n` bytes from `a` on.
  abbrev pub Done : (result : Option (Memory × Store)) (a pb n : ℕ) → Memory → Store → Type 0
  Done result a pb n mem s =
      (mem' : Memory) × (s' : Store) × (result ≡ some (mem', s'))
      × Reads a pb n mem mem' s.cache s'.cache

  byte-at :
      (k off j : ℕ) (c : Cache)
      → off + j < bsize
      → byte block c (bsize * k + off + j) ≡ c.buf (buffer_of (block k) c) (off + j)
  byte-at k off j c h =
      let same_block : (bsize * k + off + j) / bsize ≡ k = omega arith in
      let same_byte : (bsize * k + off + j) % bsize ≡ off + j = omega arith in
      ap₂ (λ b i. c.buf (buffer_of (block b) c) i) same_block same_byte

  copied :
      (k off pb cnt : ℕ) (mem : Memory) (c : Cache) (x : ℕ)
      → off + cnt ≤ bsize
      → copy pb off cnt (c.buf (buffer_of (block k) c)) mem x ≡ (
          if leb pb x && ltb x (pb + cnt) then byte block c (bsize * k + off + (x - pb)) else mem x)
  copied k off pb cnt mem c x fits =
      let from = c.buf (buffer_of (block k) c) in
      elim (Bool-cases (ltb x (pb + cnt))) [
        | inl lt ↦ elim (Bool-cases (leb pb x)) [
          | inl le ↦
              let near : off + (x - pb) < bsize = ground (arith, ltb→lt x (pb + cnt) lt) in
              ground (arith, copy-copies pb off cnt from mem x, byte-at k off (x - pb) c near)
          | inr gt ↦ ground (arith, copy-copies pb off cnt from mem x)
        ]
        | inr ge ↦ ground (arith, copy-copies pb off cnt from mem x)
      ]

  read_chunk-Done :
      (fuel k off pb cnt bound : ℕ) (mem : Memory) (s : Store)
      → AreCached block bound s.cache
      → k < bound
      → off + cnt ≤ bsize
      → Done (read_chunk (suc fuel) (block k) off pb cnt mem s) (bsize * k + off) pb cnt mem s
  unfolding read_chunk take_hit
  read_chunk-Done fuel k off pb cnt bound mem s h hk fits =
      let p = buffer_of (block k) s.cache in
      (
        copy pb off cnt (s.cache.buf p) mem,
        record s { cache = take_hit p s.cache },
        rw (block_read-hit fuel (block k) s (h.cached k hk)) refl,
        record {
          index = record { hash_same = refl; device_same = refl; block_same = refl };
          buf_same = refl;
          taken = λ x. copied k off pb cnt mem s.cache x fits;
        },
      )

  read_mid-Done :
      (left fuel i cur pb bound : ℕ) (mem : Memory) (s : Store)
      → AreCached block bound s.cache
      → cur + i + left ≤ bound
      → Done
          (read_mid left (suc fuel) i cur pb block mem s)
          (bsize * (cur + i) + 0)
          pb
          (bsize * left)
          mem
          s
  unfolding read_mid
  read_mid-Done zero fuel i cur pb bound mem s h fits = (mem, s, refl, Reads-none _ pb mem s.cache)
  read_mid-Done (suc left) fuel i cur pb bound mem s h fits =
      let (mem1, s1, done, r) =
        read_chunk-Done fuel (cur + i) 0 pb bsize bound mem s h (omega arith) (omega arith) in
      let h1 = AreCached-same block bound s.cache s1.cache r.index h in
      let (mem2, s2, rest, v) =
        read_mid-Done left fuel (i + 1) cur (pb + bsize) bound mem1 s1 h1 (omega arith) in
      (
        mem2,
        s2,
        rw done rest,
        Reads-then _ _ bsize (bsize * left) _ _ _ mem mem1 mem2 s.cache s1.cache s2.cache
            (omega arith) refl (omega arith) r v,
      )

  module _ (fuel cur off buf size : ℕ) (mem : Memory) (s : Store) where
    read_blocks-far :
        (mem1 mem2 mem3 : Memory) (s1 s2 s3 : Store)
        → let q = (size - (bsize - off)) / bsize in
          let pb = buf + (bsize - off) in
          ltb (bsize - off) size ≡ true
          → read_chunk fuel (block cur) off buf (bsize - off) mem s ≡ some (mem1, s1)
          → read_mid q fuel 1 cur pb block mem1 s1 ≡ some (mem2, s2)
          → read_chunk fuel
              (block (cur + (q + 1)))
              0
              (pb + bsize * q)
              ((size - (bsize - off)) % bsize)
              mem2
              s2
            ≡ some (mem3, s3)
          → read_blocks fuel cur off buf size block mem s ≡ some (mem3, s3)
    unfolding read_blocks
    read_blocks-far mem1 mem2 mem3 s1 s2 s3 far done1 done2 done3 =
        rw (far, done1) (ground (arith, done2, done3))

    read_blocks-near :
        (mem1 : Memory) (s1 : Store)
        → ltb (bsize - off) size ≡ false
        → read_chunk fuel (block cur) off buf size mem s ≡ some (mem1, s1)
        → read_blocks fuel cur off buf size block mem s ≡ some (mem1, s1)
    unfolding read_blocks read_mid
    read_blocks-near mem1 s1 near done = rw (near, done) refl

  -- Of `size` bytes, from `off` in block `cur` on, none is left out and no other is taken.
  pub read_blocks-Done :
      (fuel cur off buf size bound : ℕ) (mem : Memory) (s : Store)
      → AreCached block bound s.cache
      → off < bsize
      → cur + further off size < bound
      → Done
          (read_blocks (suc fuel) cur off buf size block mem s)
          (bsize * cur + off)
          buf
          size
          mem
          s
  read_blocks-Done fuel cur off buf size bound mem s h small fits =
      elim (Bool-cases (ltb (bsize - off) size)) [
        | inl far ↦
            let long : bsize - off < size = ltb→lt (bsize - off) size far in
            let q : ℕ = (size - (bsize - off)) / bsize in
            let na : further off size ≡ q + 1 = rw far refl in
            let (mem1, s1, done1, r1) =
              read_chunk-Done fuel cur off buf (bsize - off) bound mem s h (omega arith)
                (omega arith) in
            let h1 = AreCached-same block bound s.cache s1.cache r1.index h in
            let (mem2, s2, done2, r2) =
              read_mid-Done q fuel 1 cur (buf + (bsize - off)) bound mem1 s1 h1
                (omega (arith, na)) in
            let h2 = AreCached-same block bound s1.cache s2.cache r2.index h1 in
            let (mem3, s3, done3, r3) =
              read_chunk-Done fuel (cur + (q + 1)) 0 (buf + (bsize - off) + bsize * q)
                ((size - (bsize - off)) % bsize) bound mem2 s2 h2 (omega (arith, na))
                (omega arith) in
            (
              mem3,
              s3,
              read_blocks-far (suc fuel) cur off buf size mem s mem1 mem2 mem3 s1 s2 s3 far done1
                  done2 done3,
              Reads-then _ _ (bsize - off) (size - (bsize - off)) _ _ _ mem mem1 mem3 s.cache
                  s1.cache s3.cache (omega arith) refl (omega arith) r1
                  (Reads-then _ _ (bsize * q) ((size - (bsize - off)) % bsize) _ _ _ mem1 mem2 mem3
                    s1.cache s2.cache s3.cache (omega arith) refl (omega arith) r2 r3),
            )
        | inr near ↦
            let short : size ≤ bsize - off = ltb_false→le (bsize - off) size near in
            let (mem1, s1, done, r) =
              read_chunk-Done fuel cur off buf size bound mem s h (omega arith) (omega arith) in
            (mem1, s1, read_blocks-near (suc fuel) cur off buf size mem s mem1 s1 near done, r)
      ]
