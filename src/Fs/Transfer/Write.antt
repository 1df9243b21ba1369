-- ===== src/Fs/Transfer/Write.antt =====
-- The blocks that `write` fills, one after the other.
use orcas.Base.{
  ℕ, zero, suc, ◌+◌, ◌-◌, ◌*◌, ◌/◌, ◌%◌, ◌≤◌, ◌<◌, ◌≡◌, refl, ap, ◌∙◌, ltb, leb, ◌&&◌,
  if◌then◌else◌, arith, some, true, false, Option, inl, inr, Bool-cases, ltb_false→le, ltb→lt,
}
use orcas.Util.{Memory}
use orcas.Fs.Cache.{Cache, bucket}
use orcas.Fs.Cache.Disk.{Store}
use orcas.Fs.Transfer.{bsize, further, write_chunk, write_mid, write_blocks}
use orcas.Fs.Transfer.Chunk.{byte, AreCached, AreCached-same, Writes, write_chunk-Writes}

module _ (block : ℕ → ℕ) (bound : ℕ) (mem : Memory) where
  Writes-none : (a pb : ℕ) (c : Cache) → Writes block bound a pb 0 mem c c
  Writes-none a pb c = record {
    index = record { hash_same = refl; device_same = refl; block_same = refl };
    written = λ i hi. ground arith;
    others = λ q ne. refl;
  }

  -- One write right behind another.
  Writes-then :
      (a pb n m a' pb' total : ℕ) (c c1 c2 : Cache)
      → a' ≡ a + n
      → pb' ≡ pb + n
      → total ≡ n + m
      → Writes block bound a pb n mem c c1
      → Writes block bound a' pb' m mem c1 c2
      → Writes block bound a pb total mem c c2
  Writes-then a pb n m a' pb' total c c1 c2 ea ep et u v = record {
    index = record {
      hash_same = v.index.hash_same ∙ u.index.hash_same;
      device_same = v.index.device_same ∙ u.index.device_same;
      block_same = v.index.block_same ∙ u.index.block_same;
    };
    written = λ i hi. v.written i hi ∙ both i (u.written i hi);
    others = λ q ne.
        v.others q (λ k p e. ne k p (e ∙ ap (λ next. next (bucket (block k))) u.index.hash_same))
        ∙ u.others q ne;
  }
    where
      both :
          (i : ℕ)
          → byte block c1 i
            ≡ (if leb a i && ltb i (a + n) then mem (pb + (i - a)) else byte block c i)
          → (if leb a' i && ltb i (a' + m) then mem (pb' + (i - a')) else byte block c1 i)
            ≡ (if leb a i && ltb i (a + total) then mem (pb + (i - a)) else byte block c i)
      both i e = elim (Bool-cases (ltb i (a + n))) [
        | inl lt ↦ ground (arith, e)
        | inr ge ↦
            let behind : a + n ≤ i = ltb_false→le i (a + n) ge in
            let same : pb' + (i - a') ≡ pb + (i - a) = omega arith in ground (arith, e, ap mem same)
      ]

  -- A transfer that succeeds and writes `n` bytes from `a` on.
  abbrev pub Done : (result : Option Store) (a pb n : ℕ) → Store → Type 0
  Done result a pb n s =
      (s' : Store) × (result ≡ some s') × Writes block bound a pb n mem s.cache s'.cache

  write_mid-Done :
      (left fuel i cur pb : ℕ) (s : Store)
      → AreCached block bound s.cache
      → cur + i + left ≤ bound
      → Done
          (write_mid left (suc fuel) i cur pb block mem s)
          (bsize * (cur + i) + 0)
          pb
          (bsize * left)
          s
  unfolding write_mid
  write_mid-Done zero fuel i cur pb s h fits = (s, refl, Writes-none _ pb s.cache)
  write_mid-Done (suc left) fuel i cur pb s h fits =
      let (s1, done, w) =
        write_chunk-Writes fuel (cur + i) 0 pb bsize bound block mem s h (omega arith)
          (omega arith) in
      let h1 = AreCached-same block bound s.cache s1.cache w.index h in
      let (s2, rest, v) = write_mid-Done left fuel (i + 1) cur (pb + bsize) s1 h1 (omega arith) in
      (
        s2,
        rw done rest,
        Writes-then _ _ bsize (bsize * left) _ _ _ s.cache s1.cache s2.cache (omega arith)
            (omega arith) (omega arith) w v,
      )

  module _ (fuel cur off buf size : ℕ) (s : Store) where
    write_blocks-far :
        (s1 s2 s3 : Store)
        → let q = (size - (bsize - off)) / bsize in
          let pb = buf + (bsize - off) in
          ltb (bsize - off) size ≡ true
          → write_chunk fuel (block cur) off buf (bsize - off) mem s ≡ some s1
          → write_mid q fuel 1 cur pb block mem s1 ≡ some s2
          → write_chunk fuel
              (block (cur + (q + 1)))
              0
              (pb + bsize * q)
              ((size - (bsize - off)) % bsize)
              mem
              s2
            ≡ some s3
          → write_blocks fuel cur off buf size block mem s ≡ some s3
    unfolding write_blocks
    write_blocks-far s1 s2 s3 far done1 done2 done3 = rw (far, done1) (ground (arith, done2, done3))

    write_blocks-near :
        (s1 : Store)
        → ltb (bsize - off) size ≡ false
        → write_chunk fuel (block cur) off buf size mem s ≡ some s1
        → write_blocks fuel cur off buf size block mem s ≡ some s1
    unfolding write_blocks write_mid
    write_blocks-near s1 near done = rw (near, done) refl

  -- Of `size` bytes, from `off` in block `cur` on, none is left out and no other is touched.
  pub write_blocks-Done :
      (fuel cur off buf size : ℕ) (s : Store)
      → AreCached block bound s.cache
      → off < bsize
      → cur + further off size < bound
      → Done (write_blocks (suc fuel) cur off buf size block mem s) (bsize * cur + off) buf size s
  unfolding write_blocks
  write_blocks-Done fuel cur off buf size s h small fits =
      elim (Bool-cases (ltb (bsize - off) size)) [
        | inl far ↦
            let long : bsize - off < size = ltb→lt (bsize - off) size far in
            let q : ℕ = (size - (bsize - off)) / bsize in
            let na : further off size ≡ q + 1 = rw far refl in
            let (s1, done1, w1) =
              write_chunk-Writes fuel cur off buf (bsize - off) bound block mem s h (omega arith)
                (omega arith) in
            let h1 = AreCached-same block bound s.cache s1.cache w1.index h in
            let (s2, done2, w2) =
              write_mid-Done q fuel 1 cur (buf + (bsize - off)) s1 h1 (omega (arith, na)) in
            let h2 = AreCached-same block bound s1.cache s2.cache w2.index h1 in
            let (s3, done3, w3) =
              write_chunk-Writes fuel (cur + (q + 1)) 0 (buf + (bsize - off) + bsize * q)
                ((size - (bsize - off)) % bsize) bound block mem s2 h2 (omega (arith, na))
                (omega arith) in
            (
              s3,
              write_blocks-far (suc fuel) cur off buf size s s1 s2 s3 far done1 done2 done3,
              Writes-then _ _ (bsize - off) (size - (bsize - off)) _ _ _ s.cache s1.cache s3.cache
                  (omega arith) refl (omega arith) w1
                  (Writes-then _ _ (bsize * q) ((size - (bsize - off)) % bsize) _ _ _ s1.cache
                    s2.cache s3.cache (omega arith) refl (omega arith) w2 w3),
            )
        | inr near ↦
            let short : size ≤ bsize - off = ltb_false→le (bsize - off) size near in
            let (s1, done, w) =
              write_chunk-Writes fuel cur off buf size bound block mem s h (omega arith)
                (omega arith) in
            (s1, write_blocks-near (suc fuel) cur off buf size s s1 near done, w)
      ]
