-- ===== src/Fs/Transfer/Append.antt =====
-- `write` appends to the file.
use mathlib.Core.Path.{subst}
use orcas.Base.{
  ℕ, suc, ◌+◌, ◌-◌, ◌*◌, ◌/◌, ◌%◌, ◌^◌, ◌≤◌, ◌<◌, ◌≡◌, ◌≢◌, refl, sym, ap, ap₂, ◌∙◌, ltb, leb, ◌&&◌,
  ◌==◌, if◌then◌else◌, arith, some, ◌++◌, u32,
}
use orcas.Util.{Memory}
use orcas.Fs.Cache.{Cache}
use orcas.Fs.Cache.Disk.{Store, IsCached, bytes, buffer_of}
use orcas.Fs.Transfer.{
  bsize, ndata, further, Inode, Files, alloc_blocks, write_blocks, write, put_inode,
}
use orcas.Fs.Transfer.Chunk.{byte, AreCached, IsCached-same, Writes}
use orcas.Fs.Transfer.Write.{write_blocks-Done}
use orcas.Fs.Transfer.Alloc.{Owned, take_blocks-Extended, free_from}
use orcas.Fs.Data.Warm.{
  super_of, bitmap_block, bitmap_buffer, IsWarm, Marked, IsCached-Marked, super_of-Marked,
  bitmap_of-Marked, IsWarm-Marked,
}
use orcas.Fs.Transfer.Grow.{taken, alloc_blocks-Marked, Writes-IsWarm}
use orcas.Fs.Transfer.Bytes.{
  n_data_block, data_start, bitmap, contents, bytes-same, bytes-append, further-reaches, IsStored,
  Owned-AreCached,
}

-- The state that `write` leaves behind once its blocks are filled.
abbrev written : (a size : ℕ) → (block : ℕ → ℕ) → Store → Files → Files
written a size block s f = record f {
  inode = put_inode a (record { size = u32 ((f.inode a).size + size); block = block }) f.inode;
  store = s;
}

-- The blocks that `write` of `size` bytes allocates for the inode at `a`, and the bitmap then.
abbrev pub allocated : (a size : ℕ) → Files → (ℕ → ℕ) × Memory
allocated a size f =
    let ind = f.inode a in
    taken (further (ind.size % bsize) size) 1 (ind.size / bsize) ind.block f.store.cache

write-some :
    (fuel fd buf size : ℕ) (f : Files) (block : ℕ → ℕ) (s1 s : Store)
    → let a = (f.tbl.fds fd).ind in
      let ind = f.inode a in
      let cur = ind.size / bsize in
      let off = ind.size % bsize in
      a ≢ 0
      → cur + further off size < ndata
      → alloc_blocks (further off size) fuel 1 cur f.stray f.sb ind.block f.store ≡ some (block, s1)
      → write_blocks fuel cur off buf size block f.mem s1 ≡ some s
      → write fuel fd buf size f ≡ some (size, written a size block s f)
unfolding write
write-some fuel fd buf size f block s1 s is_open room grown done = rw (grown, done) (ground arith)

-- Old bytes and new ones, from those of the cache.
contents-grows :
    (old size buf : ℕ) (before after mem : Memory)
    → ((i : ℕ)
        → i < old + size
        → after i ≡ (if leb old i && ltb i (old + size) then mem (buf + (i - old)) else before i))
    → bytes (old + size) 0 after ≡ bytes old 0 before ++ bytes size buf mem
contents-grows old size buf before after mem h =
    bytes-append old size 0 after
    ∙ ap₂ (λ xs ys. xs ++ ys) (bytes-same old 0 0 after before (λ k p. ground (arith, h (0 + k))))
        (bytes-same size (0 + old) buf after mem (λ k p.
          let back : buf + (0 + old + k - old) ≡ buf + k = omega arith in
          ground (arith, h (0 + old + k), ap mem back)))

-- What a successful `write` of `size` bytes from `buf` leaves of the file of the inode at `a`.
pub record Appended (a size buf : ℕ) (f f' : Files) : Type 0 where
  pub text :
      contents (f'.inode a) f'.store.cache
      ≡ contents (f.inode a) f.store.cache ++ bytes size buf f.mem
  pub new_size : (f'.inode a).size ≡ (f.inode a).size + size
  pub same_tbl : f'.tbl ≡ f.tbl
  pub same_mem : f'.mem ≡ f.mem
  pub same_stray : f'.stray ≡ f.stray
  pub same_super : super_of f'.store.cache ≡ super_of f.store.cache
  pub still_warm : IsWarm f.stray f'.store.cache
  pub its_blocks : (f'.inode a).block ≡ (allocated a size f).0
  pub its_bitmap : bitmap f' ≡ (allocated a size f).1
  pub all_owned :
      Owned
        (n_data_block f)
        (data_start f)
        (f'.inode a).block
        ((f.inode a).size / bsize + 1 + further ((f.inode a).size % bsize) size)
        (bitmap f')
  pub still_resident :
      (b : ℕ) → data_start f ≤ b → b < data_start f + n_data_block f → IsCached b f'.store.cache

put_inode-same : (a : ℕ) (i : Inode) (inode : ℕ → Inode) → put_inode a i inode a ≡ i
put_inode-same a i inode = ground arith

byte-old :
    (old i : ℕ) (block block' : ℕ → ℕ) (c : Cache)
    → ((k : ℕ) → (if ltb k (old / bsize + 1) then block' k else block k) ≡ block k)
    → i < old
    → byte block' c i ≡ byte block c i
byte-old old i block block' c h p =
    let same : block' (i / bsize) ≡ block (i / bsize) = ground (arith, h (i / bsize)) in
    ap (λ b. c.buf (buffer_of b c) (i % bsize)) same

-- One byte of the longer file, from what the blocks hold.
byte-grows :
    (old size buf i start : ℕ) (block block' : ℕ → ℕ) (mem : Memory) (c c' : Cache)
    → start ≡ old
    → ((k : ℕ) → (if ltb k (old / bsize + 1) then block' k else block k) ≡ block k)
    → byte block' c' i
      ≡ (if leb start i && ltb i (start + size) then mem (buf + (i - start)) else byte block' c i)
    → i < old + size
    → byte block' c' i
      ≡ (if leb old i && ltb i (old + size) then mem (buf + (i - old)) else byte block c i)
byte-grows old size buf i start block block' mem c c' e h w p =
    let kept : (if leb old i && ltb i (old + size) then mem (buf + (i - old)) else byte block' c i)
        ≡ (if leb old i && ltb i (old + size) then mem (buf + (i - old)) else byte block c i) =
      ground (arith, byte-old old i block block' c h) in
    w
    ∙ ap (λ z. if leb z i && ltb i (z + size) then mem (buf + (i - z)) else byte block' c i) e
    ∙ kept

contents-appended :
    (size buf bound start : ℕ) (ind : Inode) (block' : ℕ → ℕ) (mem : Memory) (c c' : Cache)
    → start ≡ ind.size
    → ind.size + size ≤ bsize * bound
    → ind.size + size < 2 ^ 32
    → ((k : ℕ) → (if ltb k (ind.size / bsize + 1) then block' k else ind.block k) ≡ ind.block k)
    → ((i : ℕ)
        → i < bsize * bound
        → byte block' c' i ≡ (
            if leb start i && ltb i (start + size)
            then mem (buf + (i - start))
            else byte block' c i))
    → contents (record { size = u32 (ind.size + size); block = block' }) c'
      ≡ contents ind c ++ bytes size buf mem
contents-appended size buf bound start ind block' mem c c' e reach small old w =
    let count : u32 (ind.size + size) ≡ ind.size + size = omega arith in
    ap (λ n. bytes n 0 (byte block' c')) count
    ∙ contents-grows ind.size size buf (byte ind.block c) (byte block' c') mem (λ i p.
      byte-grows ind.size size buf i start ind.block block' mem c c' e old (w i (omega arith)) p)

-- The mark in the bitmap is not seen through the blocks of the file.
byte-Marked :
    (block : ℕ → ℕ) (i : ℕ) (marks : Memory) (c c1 : Cache)
    → Marked marks c c1
    → IsCached (block (i / bsize)) c
    → IsCached (bitmap_block c) c
    → block (i / bsize) ≢ bitmap_block c
    → byte block c1 i ≡ byte block c i
byte-Marked block i marks c c1 m here there ne =
    let q = buffer_of (block (i / bsize)) c in
    let differ : q ≢ bitmap_buffer c =
      λ e. ne (sym here.its_block ∙ ap c.block e ∙ there.its_block) in
    let kept : (if q == bitmap_buffer c then marks else c.buf q) ≡ c.buf q =
      ground (arith, differ) in
    ap (λ b. b (i % bsize)) (ap c1.buf (m.hash_same (block (i / bsize))) ∙ m.bytes_same q ∙ kept)

-- From the state `s1` behind the allocation, which marked the bitmap of `f`, to the end of `write`.
filled-Appended :
    (a size buf : ℕ) (f : Files) (s1 s : Store)
    → let ind = f.inode a in
      let cur = ind.size / bsize in
      let na = further (ind.size % bsize) size in
      let extended = allocated a size f in
      IsStored f a
      → ind.size / bsize + na < ndata
      → Owned (n_data_block f) (data_start f) extended.0 (cur + 1 + na) extended.1
      → ((k : ℕ) → (if ltb k (cur + 1) then extended.0 k else ind.block k) ≡ ind.block k)
      → Marked extended.1 f.store.cache s1.cache
      → Writes extended.0
          (cur + 1 + na)
          (bsize * cur + ind.size % bsize)
          buf
          size
          f.mem
          s1.cache
          s.cache
      → Appended a size buf f (written a size extended.0 s f)
filled-Appended a size buf f s1 s stored room owned old m w =
    let ind : Inode = f.inode a in
    let c : Cache = f.store.cache in
    let cur : ℕ = ind.size / bsize in
    let off : ℕ = ind.size % bsize in
    let na : ℕ = further off size in
    let extended : (ℕ → ℕ) × Memory = allocated a size f in
    let bound : ℕ = cur + 1 + na in
    let cached : AreCached extended.0 bound c =
      Owned-AreCached (n_data_block f) (data_start f) bound extended.0 extended.1 c owned
        stored.resident in
    let cached1 : AreCached extended.0 bound s1.cache = record {
      cached = λ k p. IsCached-Marked (extended.0 k) extended.1 c s1.cache m (cached.cached k p);
      distinct = cached.distinct;
    } in
    let warm1 = IsWarm-Marked f.stray extended.1 c s1.cache stored.warm m in
    let super1 = super_of-Marked f.stray extended.1 c s1.cache stored.warm m in
    let block1 : bitmap_block s1.cache ≡ bitmap_block c = ap (λ sb. sb.bitmap_start + 1) super1 in
    let (super2, bitmap2, warm2) =
      Writes-IsWarm f.stray extended.0 bound (bsize * cur + off) buf size f.mem s1.cache s.cache
        warm1 cached1 (λ k p e. absurd (omega (arith, e, owned.from k p, stored.super_before)))
        (λ k p e. absurd (omega (arith, e, block1, owned.from k p, stored.bitmap_before))) w in
    let (_, bitmap1) = bitmap_of-Marked f.stray extended.1 c s1.cache stored.warm m in
    let view : (i : ℕ)
        → i < bsize * bound
        → byte extended.0 s.cache i ≡ (
            if leb (bsize * cur + off) i && ltb i (bsize * cur + off + size)
            then f.mem (buf + (i - (bsize * cur + off)))
            else byte extended.0 c i) =
      λ i p.
        w.written i p
        ∙ ap
            (λ z.
              if leb (bsize * cur + off) i && ltb i (bsize * cur + off + size)
              then f.mem (buf + (i - (bsize * cur + off)))
              else z)
            (byte-Marked extended.0 i extended.1 c s1.cache m
              (cached.cached (i / bsize) (omega arith)) stored.warm.bitmap_cached
              (λ e.
                absurd (
                  omega (arith, e, owned.from (i / bsize) (omega arith), stored.bitmap_before)))) in
    let reach : off + size ≤ bsize * na + bsize = further-reaches off size (omega arith) in
    let made =
      put_inode-same a (record { size = u32 (ind.size + size); block = extended.0 }) f.inode in
    record {
      text =
          ap (λ i. contents i s.cache) made
          ∙ contents-appended size buf bound (bsize * cur + off) ind extended.0 f.mem c s.cache
              (omega arith) (omega arith) (omega arith) old view;
      new_size = ap (λ i. i.size) made ∙ omega arith;
      same_tbl = refl;
      same_mem = refl;
      same_stray = refl;
      same_super = super2 ∙ super1;
      still_warm = warm2;
      its_blocks = ap (λ i. i.block) made;
      its_bitmap = bitmap2 ∙ bitmap1;
      all_owned =
          subst
            (λ b.
              Owned (n_data_block f) (data_start f)
                (put_inode a (record { size = u32 (ind.size + size); block = extended.0 }) f.inode
                  a).block
                bound b)
            (sym (bitmap2 ∙ bitmap1))
            (subst (λ i. Owned (n_data_block f) (data_start f) i.block bound extended.1) (sym made)
              owned);
      still_resident = λ b p q.
          IsCached-same b s1.cache s.cache w.index
            (IsCached-Marked b extended.1 c s1.cache m (stored.resident b p q));
    }

pub write-Appended :
    (fuel fd buf size : ℕ) (f : Files)
    → let a = (f.tbl.fds fd).ind in
      let ind = f.inode a in
      a ≢ 0
      → IsStored f a
      → ind.size / bsize + further (ind.size % bsize) size < ndata
      → further (ind.size % bsize) size ≤ free_from (n_data_block f) 0 (bitmap f)
      → (f' : Files) × (write (suc fuel) fd buf size f ≡ some (size, f')) × Appended a size buf f f'
write-Appended fuel fd buf size f is_open stored room enough =
    let a : ℕ = (f.tbl.fds fd).ind in
    let ind : Inode = f.inode a in
    let c : Cache = f.store.cache in
    let cur : ℕ = ind.size / bsize in
    let off : ℕ = ind.size % bsize in
    let na : ℕ = further off size in
    let extended : (ℕ → ℕ) × Memory = allocated a size f in
    let (owned, old) =
      take_blocks-Extended na 1 cur (n_data_block f) (data_start f) ind.block (bitmap f) stored.few
        stored.fits enough stored.owned in
    let (s1, grown, m) =
      alloc_blocks-Marked fuel cur f.stray f.sb na 1 ind.block f.store stored.warm in
    let cached1 : AreCached extended.0 (cur + 1 + na) s1.cache =
      Owned-AreCached (n_data_block f) (data_start f) (cur + 1 + na) extended.0 extended.1 s1.cache
        owned (λ b p q. IsCached-Marked b extended.1 c s1.cache m (stored.resident b p q)) in
    let (s, done, w) =
      write_blocks-Done extended.0 (cur + 1 + na) f.mem fuel cur off buf size s1 cached1
        (omega arith) (omega arith) in
    (
      written a size extended.0 s f,
      write-some (suc fuel) fd buf size f extended.0 s1 s is_open room grown done,
      filled-Appended a size buf f s1 s stored room owned old m w,
    )
