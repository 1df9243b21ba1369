-- ===== src/Fs/Transfer/Alloc.antt =====
-- The blocks that `write` adds to a file, as far as the bitmap tells.
use orcas.Base.{
  ℕ, zero, suc, ◌+◌, ◌-◌, ◌^◌, ◌≤◌, ◌<◌, ◌==◌, ◌≡◌, ◌≢◌, refl, ◌∙◌, ap, ltb, leb, if◌then◌else◌,
  u32, arith, inl, inr,
}
use orcas.Util.{Memory, put}
use orcas.Fs.{find_zero, alloc_data}
use orcas.Fs.Bitmap.{AllTaken, find_zero-Found}

-- `left` rounds of the search and the mark in the bitmap, the addresses from `block[cur + i]` on.
unfoldable pub take_blocks : (left i cur n start : ℕ) → (block : ℕ → ℕ) → Memory → (ℕ → ℕ) × Memory
take_blocks zero i cur n start block bitmap = (block, bitmap)
take_blocks (suc left) i cur n start block bitmap =
    let (addr, after) = alloc_data n start 0 bitmap in
    take_blocks left (i + 1) cur n start (λ k. if k == cur + i then addr else block k) after

-- The bytes 0 among the `left` from `i` on: data blocks that are free.
unfoldable pub free_from : (left i : ℕ) → Memory → ℕ
free_from zero i bitmap = 0
free_from (suc left) i bitmap = (if bitmap i == 0 then 1 else 0) + free_from left (i + 1) bitmap

pub free_from-put :
    (left lo x : ℕ) (bitmap : Memory)
    → free_from left lo bitmap ≤ free_from left lo (put x 1 bitmap) + (if leb lo x then 1 else 0)
unfolding free_from
free_from-put zero lo x bitmap = omega arith
free_from-put (suc left) lo x bitmap = ground (arith, free_from-put left (lo + 1) x bitmap)

free_from-taken :
    (left lo hi : ℕ) (bitmap : Memory)
    → lo + left ≡ hi
    → AllTaken lo hi 0 bitmap
    → free_from left lo bitmap ≡ 0
unfolding free_from
free_from-taken zero lo hi bitmap e all = refl
free_from-taken (suc left) lo hi bitmap e all =
    let rest : AllTaken (lo + 1) hi 0 bitmap = λ j p q. all j (omega arith) q in
    let here : bitmap (0 + lo) ≢ 0 = all lo (omega arith) (omega arith) in
    let at_lo : 0 + lo ≡ lo = omega arith in
    ground
      (arith, here, ap bitmap at_lo, free_from-taken left (lo + 1) hi bitmap (omega arith) rest)

-- The first `used` blocks of a file are different data blocks, each with its byte in the bitmap set.
pub record Owned (n start : ℕ) (block : ℕ → ℕ) (used : ℕ) (bitmap : Memory) : Type 0 where
  pub from : (k : ℕ) → k < used → start ≤ block k
  pub upto : (k : ℕ) → k < used → block k < start + n
  pub taken : (k : ℕ) → k < used → bitmap (block k - start) ≢ 0
  pub distinct : (j k : ℕ) → j < used → k < used → block j ≡ block k → j ≡ k

abbrev pub extend : (used addr : ℕ) → (ℕ → ℕ) → ℕ → ℕ
extend used addr block k = if k == used then addr else block k

Owned-fresh :
    (n start : ℕ) (block : ℕ → ℕ) (used i : ℕ) (bitmap : Memory)
    → bitmap i ≡ 0
    → Owned n start block used bitmap
    → (k : ℕ) → k < used
    → block k ≢ start + i
Owned-fresh n start block used i bitmap clear h k p same =
    let index : block k - start ≡ i = omega arith in h.taken k p (ap bitmap index ∙ clear)

Owned-extend :
    (n start : ℕ) (block : ℕ → ℕ) (used i : ℕ) (bitmap : Memory)
    → i < n
    → bitmap i ≡ 0
    → Owned n start block used bitmap
    → Owned n start (extend used (start + i) block) (suc used) (put i 1 bitmap)
Owned-extend n start block used i bitmap hi clear h = record {
  from = λ k p. ground (arith, h.from k);
  upto = λ k p. ground (arith, h.upto k);
  taken = λ k p. ground (arith, h.taken k);
  distinct = λ j k p q e.
      let fresh = Owned-fresh n start block used i bitmap clear h in
      ground (arith, fresh j, fresh k, h.distinct j k);
}

-- One round of the loop, where `allocData` finds the byte `i`.
take_blocks-found :
    (left r cur n start i : ℕ) (block : ℕ → ℕ) (bitmap : Memory)
    → start + n < 2 ^ 32
    → i < n
    → find_zero n 0 0 bitmap ≡ i
    → take_blocks (suc left) r cur n start block bitmap
      ≡ take_blocks left (r + 1) cur n start (extend (cur + r) (start + i) block) (put i 1 bitmap)
unfolding take_blocks alloc_data
take_blocks-found left r cur n start i block bitmap fits hi e =
    let addr : u32 (start + i) ≡ start + i = omega arith in
    let byte : u32 (0 + i) ≡ i = omega arith in rw (e, addr, byte) refl

-- The file has `total` blocks of its own, of which the first `used` are the old ones.
abbrev pub Extended : (n start : ℕ) (block : ℕ → ℕ) (used total : ℕ) → (ℕ → ℕ) × Memory → Type 0
Extended n start block used total result =
    Owned n start result.0 total result.1
    × ((k : ℕ) → (if ltb k used then result.0 k else block k) ≡ block k)

Owned-count :
    (n start : ℕ) (block : ℕ → ℕ) (used total : ℕ) (bitmap : Memory)
    → used ≡ total
    → Owned n start block used bitmap
    → Owned n start block total bitmap
Owned-count n start block used total bitmap e h = rw (← e) h

take_blocks-none :
    (r cur n start : ℕ) (block : ℕ → ℕ) (bitmap : Memory)
    → Owned n start block (cur + r) bitmap
    → Extended n start block (cur + r) (cur + r + 0) (take_blocks 0 r cur n start block bitmap)
unfolding take_blocks
take_blocks-none r cur n start block bitmap h =
    (Owned-count n start block (cur + r) (cur + r + 0) bitmap (omega arith) h, λ k. ground arith)

Extended-next :
    (n start : ℕ) (block : ℕ → ℕ) (used used' addr total total' : ℕ) (result : (ℕ → ℕ) × Memory)
    → used' ≡ suc used
    → total ≡ total'
    → Extended n start (extend used addr block) used' total result
    → Extended n start block used total' result
Extended-next n start block used used' addr total total' result one e (owned, old) =
    (Owned-count n start result.0 total total' result.1 e owned, λ k. ground (arith, old k))

-- With a free byte for each round, the file gets as many new data blocks, and keeps its old ones.
pub take_blocks-Extended :
    (left r cur n start : ℕ) (block : ℕ → ℕ) (bitmap : Memory)
    → n < 2 ^ 31
    → start + n < 2 ^ 32
    → left ≤ free_from n 0 bitmap
    → Owned n start block (cur + r) bitmap
    → Extended n start block
        (cur + r)
        (cur + r + left)
        (take_blocks left r cur n start block bitmap)
take_blocks-Extended zero r cur n start block bitmap few fits enough h =
    take_blocks-none r cur n start block bitmap h
take_blocks-Extended (suc left) r cur n start block bitmap few fits enough h =
    elim (find_zero-Found n 0 n 0 bitmap (omega arith)) [
      | inl f ↦
          let i : ℕ = find_zero n 0 0 bitmap in
          let next = extend (cur + r) (start + i) block in
          let at_i : i ≡ 0 + i = omega arith in
          let clear : bitmap i ≡ 0 = ap bitmap at_i ∙ f.zero_byte in
          let owned = Owned-extend n start block (cur + r) i bitmap f.upto clear h in
          let still : left ≤ free_from n 0 (put i 1 bitmap) =
            ground (arith, free_from-put n 0 i bitmap) in
          let rest =
            take_blocks-Extended left (r + 1) cur n start next (put i 1 bitmap) few fits still
              (Owned-count n start next _ _ (put i 1 bitmap) (omega arith) owned) in
          rw (take_blocks-found left r cur n start i block bitmap fits f.upto refl) (
            Extended-next n start block (cur + r) (cur + (r + 1)) (start + i) _ _ _ (omega arith)
              (omega arith) rest)
      | inr (_, all) ↦ absurd (omega (arith, free_from-taken n 0 n bitmap (omega arith) all))
    ]
