-- ===== src/Fs/Transfer/Split.antt =====
-- A transfer in two writes against one write.
use mathlib.Core.Path.{subst}
use orcas.Base.{
  ℕ, zero, suc, ◌+◌, ◌/◌, ◌%◌, ◌≤◌, ◌<◌, ◌==◌, ◌≡◌, ◌≢◌, ◌∙◌, sym, ap, ap₂, if◌then◌else◌, u32,
  arith, some, ◌++◌, append_assoc,
}
use orcas.Util.{Memory, put}
use orcas.Fs.{OpenFile, alloc_data, find_zero}
use orcas.Fs.Cache.Disk.{bytes}
use orcas.Fs.Transfer.{bsize, ndata, further, Inode, Files, write}
use orcas.Fs.Transfer.Alloc.{take_blocks, free_from, free_from-put}
use orcas.Fs.Transfer.Bytes.{n_data_block, data_start, bitmap, contents, bytes-append, IsStored}
use orcas.Fs.Transfer.Append.{Appended, write-Appended}
use orcas.Fs.Transfer.Contract.{Appended-IsStored}

-- Each block that is allocated takes at most one free one.
take_blocks-free_from :
    (left i cur n start : ℕ) (block : ℕ → ℕ) (bitmap : Memory)
    → free_from n 0 bitmap ≤ free_from n 0 (take_blocks left i cur n start block bitmap).1 + left
unfolding take_blocks alloc_data
take_blocks-free_from zero i cur n start block bitmap = omega arith
take_blocks-free_from (suc left) i cur n start block bitmap =
    let addr : ℕ = find_zero n 0 0 bitmap in
    let after : Memory = put (u32 (0 + addr)) 1 bitmap in
    let next : ℕ → ℕ = λ k. if k == cur + i then u32 (start + addr) else block k in
    let one : free_from n 0 bitmap ≤ free_from n 0 after + 1 =
      ground (arith, free_from-put n 0 (u32 (0 + addr)) bitmap) in
    omega (arith, one, take_blocks-free_from left (i + 1) cur n start next after)

-- The blocks that two transfers reach are no more than those that one of both reaches.
further-split :
    (off n m : ℕ)
    → off < bsize
    → off + n ≢ bsize
    → (further off n + further ((off + n) % bsize) m ≤ further off (n + m))
      × (further off n ≡ (off + n) / bsize)
further-split off n m h ne = ground arith

Appended-free_from :
    (a size buf : ℕ) (f f' : Files)
    → let ind = f.inode a in
      Appended a size buf f f'
      → free_from (n_data_block f) 0 (bitmap f)
        ≤ free_from (n_data_block f') 0 (bitmap f') + further (ind.size % bsize) size
Appended-free_from a size buf f f' w =
    let ind : Inode = f.inode a in
    let same =
      ap₂ (λ k b. free_from k 0 b) (ap (λ sb. sb.n_data_block) w.same_super) w.its_bitmap in
    omega (
      arith,
      same,
      take_blocks-free_from (further (ind.size % bsize) size) 1 (ind.size / bsize) (n_data_block f)
          (data_start f) ind.block (bitmap f),
    )

-- A `write` in a state whose table of files is `tbl`.
write-from :
    (fuel fd buf size : ℕ) (f : Files) (tbl : OpenFile)
    → let a = (tbl.fds fd).ind in
      let ind = f.inode a in
      f.tbl ≡ tbl
      → a ≢ 0
      → IsStored f a
      → ind.size / bsize + further (ind.size % bsize) size < ndata
      → further (ind.size % bsize) size ≤ free_from (n_data_block f) 0 (bitmap f)
      → (f' : Files) × (write (suc fuel) fd buf size f ≡ some (size, f')) × Appended a size buf f f'
write-from fuel fd buf size f tbl e is_open stored room enough =
    let (f', done, w) =
      write-Appended fuel fd buf size f (rw e is_open)
        (subst (λ t. IsStored f (t.fds fd).ind) (sym e) stored) (rw e room) (rw e enough) in
    (f', done, subst (λ t. Appended (t.fds fd).ind size buf f f') e w)

-- For an open file that is stored, with room for `n + m` bytes in the inode and in the bitmap, where
-- the first `n` do not end where their first block ends: a `write` of `n` bytes and one of the `m`
-- bytes behind them leave the file with the same contents as a single `write` of all.
pub write-split :
    (fuel fd buf n m : ℕ) (f : Files)
    → let a = (f.tbl.fds fd).ind in
      let ind = f.inode a in
      a ≢ 0
      → IsStored f a
      → ind.size / bsize + further (ind.size % bsize) (n + m) < ndata
      → further (ind.size % bsize) (n + m) ≤ free_from (n_data_block f) 0 (bitmap f)
      → ind.size % bsize + n ≢ bsize
      → (f1 : Files) × (f2 : Files) × (f3 : Files) × (write (suc fuel) fd buf n f ≡ some (n, f1))
        × (write (suc fuel) fd (buf + n) m f1 ≡ some (m, f2))
        × (write (suc fuel) fd buf (n + m) f ≡ some (n + m, f3))
        × (contents (f2.inode a) f2.store.cache ≡ contents (f3.inode a) f3.store.cache)
write-split fuel fd buf n m f is_open stored room enough partial =
    let a : ℕ = (f.tbl.fds fd).ind in
    let ind : Inode = f.inode a in
    let (fewer, exact) = further-split (ind.size % bsize) n m (omega arith) partial in
    let (f1, run1, w1) =
      write-Appended fuel fd buf n f is_open stored (omega (arith, room, fewer))
        (omega (arith, enough, fewer)) in
    let stored1 : IsStored f1 a = Appended-IsStored a n buf f f1 stored partial w1 in
    let size1 : (f1.inode a).size ≡ ind.size + n = w1.new_size in
    let off1 : (f1.inode a).size % bsize ≡ (ind.size % bsize + n) % bsize = omega (arith, size1) in
    let more : further ((f1.inode a).size % bsize) m ≡ further ((ind.size % bsize + n) % bsize) m =
      ap (λ o. further o m) off1 in
    let left : free_from (n_data_block f) 0 (bitmap f)
        ≤ free_from (n_data_block f1) 0 (bitmap f1) + further (ind.size % bsize) n =
      Appended-free_from a n buf f f1 w1 in
    let (f2, run2, w2) =
      write-from fuel fd (buf + n) m f1 f.tbl w1.same_tbl is_open stored1
        (omega (arith, room, fewer, exact, size1, more))
        (omega (arith, enough, fewer, left, more)) in
    let (f3, run3, w3) = write-Appended fuel fd buf (n + m) f is_open stored room enough in
    (
      f1,
      f2,
      f3,
      run1,
      run2,
      run3,
      w2.text
          ∙ ap₂ (λ xs ys. xs ++ ys) w1.text (ap (bytes m (buf + n)) w1.same_mem)
          ∙ append_assoc (contents ind f.store.cache) (bytes n buf f.mem) (bytes m (buf + n) f.mem)
          ∙ ap (λ ys. contents ind f.store.cache ++ ys) (sym (bytes-append n m buf f.mem))
          ∙ sym w3.text,
    )
