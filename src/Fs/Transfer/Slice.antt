-- ===== src/Fs/Transfer/Slice.antt =====
-- `read` takes a slice of the file.
use orcas.Base.{
  ℕ, zero, suc, ◌+◌, ◌-◌, ◌*◌, ◌/◌, ◌%◌, ◌^◌, ◌≤◌, ◌<◌, ◌≡◌, ◌≢◌, refl, ap, ap₂, ◌∙◌, arith, some,
  ◌∷◌, u32, take, drop,
}
use orcas.Util.{Memory}
use orcas.Fs.{OpenFile, put_file}
use orcas.Fs.Cache.{bucket}
use orcas.Fs.Cache.Disk.{Store, bytes}
use orcas.Fs.Transfer.{bsize, further, Inode, Files, read_blocks, read}
use orcas.Fs.Transfer.Chunk.{byte, AreCached}
use orcas.Fs.Transfer.Read.{read_blocks-Done}
use orcas.Fs.Transfer.Bytes.{contents, bytes-same}

take-bytes : (m cnt i : ℕ) (f : Memory) → m ≤ cnt → take m (bytes cnt i f) ≡ bytes m i f
unfolding bytes
take-bytes zero cnt i f h = refl
take-bytes (suc m) zero i f h = absurd (omega arith)
take-bytes (suc m) (suc cnt) i f h = ap (λ xs. f i ∷ xs) (take-bytes m cnt (i + 1) f (omega arith))

pub slice-bytes :
    (n m cnt i : ℕ) (f : Memory) → n + m ≤ cnt → take m (drop n (bytes cnt i f)) ≡ bytes m (i + n) f
unfolding bytes
slice-bytes zero m cnt i f h =
    take-bytes m cnt i f (omega arith) ∙ ap (λ j. bytes m j f) (omega arith)
slice-bytes (suc n) m zero i f h = absurd (omega arith)
slice-bytes (suc n) m (suc cnt) i f h =
    slice-bytes n m cnt (i + 1) f (omega arith) ∙ ap (λ j. bytes m j f) (omega arith)

-- The state that `read` leaves behind once the bytes are in memory.
abbrev taken : (fd size : ℕ) → Memory → Store → Files → Files
taken fd size mem s f = record f {
  tbl = record f.tbl {
    fds = put_file fd (record (f.tbl.fds fd) { off = u32 ((f.tbl.fds fd).off + size) }) f.tbl.fds;
  };
  mem = mem;
  store = s;
}

read-some :
    (fuel fd buf size : ℕ) (f : Files) (mem : Memory) (s : Store)
    → let file = f.tbl.fds fd in
      let ind = f.inode file.ind in
      file.ind ≢ 0
      → file.off + size ≤ ind.size
      → ind.size < 2 ^ 32
      → read_blocks fuel (file.off / bsize) (file.off % bsize) buf size ind.block f.mem f.store
        ≡ some (mem, s)
      → read fuel fd buf size f ≡ some (size, taken fd size mem s f)
unfolding read
read-some fuel fd buf size f mem s is_open within small done = rw done (ground arith)

-- What a successful `read` of `size` bytes to `buf` leaves.
pub record Sliced (fd size buf : ℕ) (f f' : Files) : Type 0 where
  pub slice :
      bytes size buf f'.mem
      ≡ bytes size (f.tbl.fds fd).off (byte (f.inode (f.tbl.fds fd).ind).block f.store.cache)
  pub new_off : (f'.tbl.fds fd).off ≡ (f.tbl.fds fd).off + size
  pub same_file :
      contents (f'.inode (f.tbl.fds fd).ind) f'.store.cache
      ≡ contents (f.inode (f.tbl.fds fd).ind) f.store.cache

new_off :
    (fd o size : ℕ) (tbl : OpenFile)
    → o + size < 2 ^ 32
    → (put_file fd (record (tbl.fds fd) { off = u32 (o + size) }) tbl.fds fd).off ≡ o + size
new_off fd o size tbl h = ground arith

pub read-Sliced :
    (fuel fd buf size bound : ℕ) (f : Files)
    → let file = f.tbl.fds fd in
      let ind = f.inode file.ind in
      file.ind ≢ 0
      → AreCached ind.block bound f.store.cache
      → file.off / bsize + further (file.off % bsize) size < bound
      → file.off + size ≤ ind.size
      → ind.size < 2 ^ 32
      → (f' : Files) × (read (suc fuel) fd buf size f ≡ some (size, f')) × Sliced fd size buf f f'
read-Sliced fuel fd buf size bound f is_open cached room within small =
    let o : ℕ = (f.tbl.fds fd).off in
    let ind : Inode = f.inode (f.tbl.fds fd).ind in
    let (mem, s, done, r) =
      read_blocks-Done ind.block fuel (o / bsize) (o % bsize) buf size bound f.mem f.store cached
        (omega arith) room in
    let view = byte ind.block f.store.cache in
    (
      taken fd size mem s f,
      read-some (suc fuel) fd buf size f mem s is_open within small done,
      record {
        slice = bytes-same size buf o mem view (λ k p.
            let here : bsize * (o / bsize) + o % bsize + (buf + k - buf) ≡ o + k = omega arith in
            r.taken (buf + k) ∙ ground (arith, ap view here));
        new_off = new_off fd o size f.tbl (omega arith);
        same_file =
            ap₂
              (λ b next.
                bytes ind.size 0 (λ i. b (next (bucket (ind.block (i / bsize)))) (i % bsize)))
              r.buf_same r.index.hash_same;
      },
    )
