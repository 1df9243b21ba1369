-- ===== src/Fs/Transfer/Contract.antt =====
-- What `read` and `write` of fs.c do to a file that is a list of bytes.
use mathlib.Core.Path.{subst}
use orcas.Base.{
  ℕ, zero, suc, ◌+◌, ◌*◌, ◌/◌, ◌%◌, ◌^◌, ◌≤◌, ◌<◌, ◌≡◌, ◌≢◌, refl, sym, ap, ap₂, ◌∙◌, arith, some,
  List, ◌++◌, take, drop,
}
use orcas.Util.{Memory, minus_one}
use orcas.Fs.{OpenFile, close}
use orcas.Fs.Cache.Disk.{bytes}
use orcas.Fs.Data.Warm.{bitmap_block, IsWarm}
use orcas.Fs.Transfer.{bsize, ndata, further, Inode, Files, write, read}
use orcas.Fs.Transfer.Alloc.{Owned, take_blocks, free_from}
use orcas.Fs.Transfer.Chunk.{byte, AreCached}
use orcas.Fs.Transfer.Bytes.{
  n_data_block, data_start, bitmap, contents, further-reaches, further-within, IsStored,
  Owned-AreCached,
}
use orcas.Fs.Transfer.Append.{Appended, write-Appended}
use orcas.Fs.Transfer.Slice.{slice-bytes, read-Sliced}

-- `write` on an open file that is stored, with room for the bytes in the inode and in the bitmap,
-- returns their number, and the file is then the old bytes followed by those at `buf`.
pub write-appends :
    (fuel fd buf size : ℕ) (f : Files)
    → let a = (f.tbl.fds fd).ind in
      let ind = f.inode a in
      a ≢ 0
      → IsStored f a
      → ind.size / bsize + further (ind.size % bsize) size < ndata
      → further (ind.size % bsize) size ≤ free_from (n_data_block f) 0 (bitmap f)
      → (f' : Files) × (write (suc fuel) fd buf size f ≡ some (size, f'))
        × (contents (f'.inode a) f'.store.cache
            ≡ contents ind f.store.cache ++ bytes size buf f.mem)
write-appends fuel fd buf size f is_open stored room enough =
    let (f', done, w) = write-Appended fuel fd buf size f is_open stored room enough in
    (f', done, w.text)

-- `read` on an open file that is stored, of bytes that it has and with a size below 2^32, returns
-- their number, puts the slice of the file from the offset on into memory, moves the offset behind
-- it and leaves the file as it is.
pub read-slices :
    (fuel fd buf size : ℕ) (f : Files)
    → let file = f.tbl.fds fd in
      let ind = f.inode file.ind in
      file.ind ≢ 0
      → IsStored f file.ind
      → file.off + size ≤ ind.size
      → ind.size < 2 ^ 32
      → (f' : Files) × (read (suc fuel) fd buf size f ≡ some (size, f'))
        × (bytes size buf f'.mem ≡ take size (drop file.off (contents ind f.store.cache)))
        × ((f'.tbl.fds fd).off ≡ file.off + size)
        × (contents (f'.inode file.ind) f'.store.cache ≡ contents ind f.store.cache)
read-slices fuel fd buf size f is_open stored within small =
    let file = f.tbl.fds fd in
    let ind : Inode = f.inode file.ind in
    let cached =
      Owned-AreCached (n_data_block f) (data_start f) (ind.size / bsize + 1) ind.block (bitmap f)
        f.store.cache stored.owned stored.resident in
    let (f', done, r) =
      read-Sliced fuel fd buf size (ind.size / bsize + 1) f is_open cached
        (omega (arith, further-within file.off size ind.size within)) within small in
    let view = byte ind.block f.store.cache in
    let from = slice-bytes file.off size ind.size 0 view within in
    (
      f',
      done,
      r.slice ∙ ap (λ j. bytes size j view) (omega arith) ∙ sym from,
      r.new_off,
      r.same_file,
    )

-- A write that does not end where its first block ends allocates up to the block that it ends in.
further-exact : (off n : ℕ) → off < bsize → off + n ≢ bsize → further off n ≡ (off + n) / bsize
further-exact off n h ne = ground arith

Owned-at :
    (n n' start start' used used' : ℕ) (block : ℕ → ℕ) (bitmap : Memory)
    → n' ≡ n
    → start' ≡ start
    → used' ≡ used
    → Owned n start block used bitmap
    → Owned n' start' block used' bitmap
Owned-at n n' start start' used used' block bitmap e d u h = rw (e, d, u) h

pub Appended-IsStored :
    (a size buf : ℕ) (f f' : Files)
    → let ind = f.inode a in
      IsStored f a → ind.size % bsize + size ≢ bsize → Appended a size buf f f' → IsStored f' a
Appended-IsStored a size buf f f' stored partial w =
    let ind : Inode = f.inode a in
    let off : ℕ = ind.size % bsize in
    let ends : further off size ≡ (off + size) / bsize =
      further-exact off size (omega arith) partial in
    let grown = w.new_size in
    let count : n_data_block f' ≡ n_data_block f = ap (λ sb. sb.n_data_block) w.same_super in
    let start : data_start f' ≡ data_start f = ap (λ sb. sb.data_start) w.same_super in
    let at_bitmap : bitmap_block f'.store.cache ≡ bitmap_block f.store.cache =
      ap (λ sb. sb.bitmap_start + 1) w.same_super in
    record {
      few = omega (arith, stored.few, count);
      fits = omega (arith, stored.fits, count, start);
      super_before = omega (arith, stored.super_before, start);
      bitmap_before = omega (arith, stored.bitmap_before, start, at_bitmap);
      warm = subst (λ n. IsWarm n f'.store.cache) (sym w.same_stray) w.still_warm;
      owned =
          Owned-at (n_data_block f) (n_data_block f') (data_start f) (data_start f') _ _ _
            (bitmap f') count start (omega (arith, ends, grown)) w.all_owned;
      resident =
          λ b p q. w.still_resident b (omega (arith, p, start)) (omega (arith, q, start, count));
    }

-- For an open file that is stored, with room for the bytes in the inode and in the bitmap: after a
-- `write` that does not end where its first block ends, the file is stored again.
pub write-IsStored :
    (fuel fd buf size : ℕ) (f : Files)
    → let a = (f.tbl.fds fd).ind in
      let ind = f.inode a in
      a ≢ 0
      → IsStored f a
      → ind.size / bsize + further (ind.size % bsize) size < ndata
      → further (ind.size % bsize) size ≤ free_from (n_data_block f) 0 (bitmap f)
      → ind.size % bsize + size ≢ bsize
      → (f' : Files) × (write (suc fuel) fd buf size f ≡ some (size, f')) × IsStored f' a
write-IsStored fuel fd buf size f is_open stored room enough partial =
    let (f', done, w) = write-Appended fuel fd buf size f is_open stored room enough in
    (f', done, Appended-IsStored (f.tbl.fds fd).ind size buf f f' stored partial w)

-- For an open file that is stored, with fewer than 64 blocks full: a `write` that ends exactly
-- where its first block ends allocates no block. The bitmap and the addresses of the blocks are as
-- before, though the next write starts in a further block.
pub write-fills :
    (fuel fd buf size : ℕ) (f : Files)
    → let a = (f.tbl.fds fd).ind in
      let ind = f.inode a in
      a ≢ 0
      → IsStored f a
      → ind.size / bsize < ndata
      → ind.size % bsize + size ≡ bsize
      → (f' : Files) × (write (suc fuel) fd buf size f ≡ some (size, f'))
        × ((bitmap f') ≡ (bitmap f))
        × ((f'.inode a).block ≡ ind.block)
        × ((f'.inode a).size / bsize ≡ ind.size / bsize + 1)
unfolding take_blocks
write-fills fuel fd buf size f is_open stored room exact =
    let ind : Inode = f.inode (f.tbl.fds fd).ind in
    let none : further (ind.size % bsize) size ≡ 0 = ground arith in
    let (f', done, w) =
      write-Appended fuel fd buf size f is_open stored (omega (arith, none))
        (omega (arith, none)) in
    let grown = w.new_size in
    let same : take_blocks (further (ind.size % bsize) size) 1 (ind.size / bsize) (n_data_block f)
          (data_start f) ind.block (bitmap f)
        ≡ (ind.block, bitmap f) =
      rw none refl in
    (
      f',
      done,
      w.its_bitmap ∙ ap (λ r. r.1) same,
      w.its_blocks ∙ ap (λ r. r.0) same,
      omega (arith, grown),
    )

bytes-tail :
    (n m i j : ℕ) (g f : Memory) (ys : List ℕ)
    → bytes (n + m) i g ≡ bytes n j f ++ ys
    → bytes m (i + n) g ≡ ys
unfolding bytes
bytes-tail zero m i j g f ys e =
    let count : m ≡ 0 + m = omega arith in ap₂ (λ c k. bytes c k g) count (omega arith) ∙ e
bytes-tail (suc n) m i j g f ys e =
    let count : suc (n + m) ≡ suc n + m = omega arith in
    let from : i + suc n ≡ i + 1 + n = omega arith in
    ap (λ k. bytes m k g) from
    ∙ bytes-tail n m (i + 1) (j + 1) g f ys (ap (drop 1) (ap (λ c. bytes c i g) count ∙ e))

-- A `read` in a state whose table of files is `tbl`.
read-from :
    (fuel fd out size bound : ℕ) (f : Files) (tbl : OpenFile)
    → let file = tbl.fds fd in
      let ind = f.inode file.ind in
      f.tbl ≡ tbl
      → file.ind ≢ 0
      → AreCached ind.block bound f.store.cache
      → file.off / bsize + further (file.off % bsize) size < bound
      → file.off + size ≤ ind.size
      → ind.size < 2 ^ 32
      → (f' : Files) × (read (suc fuel) fd out size f ≡ some (size, f'))
        × (bytes size out f'.mem ≡ bytes size file.off (byte ind.block f.store.cache))
read-from fuel fd out size bound f tbl e is_open cached room within small =
    let (f', done, r) =
      read-Sliced fuel fd out size bound f (rw e is_open) (rw e cached) (rw e room) (rw e within)
        (rw e small) in
    (
      f',
      done,
      r.slice
          ∙ ap (λ t. bytes size (t.fds fd).off (byte (f.inode (t.fds fd).ind).block f.store.cache))
              e,
    )

-- For an open file that is stored, with room for the bytes in the inode and in the bitmap, and the
-- offset at the end of the file: a `write`, and then a `read` of as many bytes to `out`, return
-- that number and put the written bytes at `out`.
pub read-write :
    (fuel fd buf size out : ℕ) (f : Files)
    → let file = f.tbl.fds fd in
      let ind = f.inode file.ind in
      file.ind ≢ 0
      → IsStored f file.ind
      → file.off ≡ ind.size
      → ind.size / bsize + further (ind.size % bsize) size < ndata
      → further (ind.size % bsize) size ≤ free_from (n_data_block f) 0 (bitmap f)
      → (f1 : Files) × (f2 : Files) × (write (suc fuel) fd buf size f ≡ some (size, f1))
        × (read (suc fuel) fd out size f1 ≡ some (size, f2))
        × (bytes size out f2.mem ≡ bytes size buf f.mem)
read-write fuel fd buf size out f is_open stored at_end room enough =
    let (f1, wrote, w) = write-Appended fuel fd buf size f is_open stored room enough in
    let file = f.tbl.fds fd in
    let ind : Inode = f.inode file.ind in
    let na : ℕ = further (ind.size % bsize) size in
    let reach : ind.size % bsize + size ≤ bsize * na + bsize =
      further-reaches (ind.size % bsize) size (omega arith) in
    let grown = w.new_size in
    let cached =
      Owned-AreCached (n_data_block f) (data_start f) (ind.size / bsize + 1 + na)
        (f1.inode file.ind).block (bitmap f1) f1.store.cache w.all_owned w.still_resident in
    let (f2, got, same) =
      read-from fuel fd out size (ind.size / bsize + 1 + na) f1 f.tbl w.same_tbl is_open cached
        (rw at_end (omega arith)) (omega (arith, at_end, grown)) (omega (arith, grown)) in
    let view = byte (f1.inode file.ind).block f1.store.cache in
    let all : bytes (ind.size + size) 0 view ≡ contents ind f.store.cache ++ bytes size buf f.mem =
      ap (λ n. bytes n 0 view) (sym grown) ∙ w.text in
    let tail = bytes-tail ind.size size 0 0 view (byte ind.block f.store.cache) _ all in
    let from : file.off ≡ 0 + ind.size = omega (arith, at_end) in
    (f1, f2, wrote, got, same ∙ ap (λ o. bytes size o view) from ∙ tail)

-- After `close`, both transfers on the descriptor fail and change nothing.
pub close-refuses :
    (fuel fd buf size : ℕ) (f : Files)
    → let shut = record f { tbl = close fd f.tbl } in
      (read fuel fd buf size shut ≡ some (minus_one, shut))
      × (write fuel fd buf size shut ≡ some (minus_one, shut))
unfolding read write close
close-refuses fuel fd buf size f = (ground arith, ground arith)
