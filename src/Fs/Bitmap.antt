-- ===== src/Fs/Bitmap.antt =====
-- What the bitmaps of inodes and data blocks give out and take back.
use native.Mathlib.Decide.{ℕ_discrete}
use orcas.Base.{
  ℕ, zero, suc, ◌+◌, ◌-◌, ◌^◌, ◌≤◌, ◌<◌, ◌≡◌, ◌≢◌, ◌⊎◌, refl, false, arith, inl, inr, Option, none,
  some, u32, ap, fun_ext, gt_int,
}
use orcas.Util.{Memory, put, minus_one}
use orcas.Fs.{find_zero, alloc_ino, free_inode, alloc_data, free_data}

-- `i` is the first index from `lo` up to `hi` whose byte is 0.
pub record IsFirst (lo hi buf : ℕ) (mem : Memory) (i : ℕ) : Type 0 where
  pub from : lo ≤ i
  pub upto : i < hi
  pub zero_byte : mem (buf + i) ≡ 0
  pub before : (j : ℕ) → lo ≤ j → j < i → mem (buf + j) ≢ 0

abbrev pub AllTaken : (lo hi buf : ℕ) → Memory → Type 0
AllTaken lo hi buf mem = (j : ℕ) → lo ≤ j → j < hi → mem (buf + j) ≢ 0

module _ (left lo hi buf : ℕ) (mem : Memory) where
  find_zero-found : mem (buf + lo) ≡ 0 → find_zero (suc left) lo buf mem ≡ lo
  unfolding find_zero
  find_zero-found e = rw e refl

  find_zero-next :
      mem (buf + lo) ≢ 0 → find_zero (suc left) lo buf mem ≡ find_zero left (lo + 1) buf mem
  unfolding find_zero
  find_zero-next ne = ground arith

abbrev pub Found : (lo hi buf : ℕ) → Memory → ℕ → Type 0
Found lo hi buf mem i = IsFirst lo hi buf mem i ⊎ ((i ≡ minus_one) × AllTaken lo hi buf mem)

Found-next :
    (lo hi buf i : ℕ) (mem : Memory)
    → mem (buf + lo) ≢ 0
    → Found (lo + 1) hi buf mem i
    → Found lo hi buf mem i
Found-next lo hi buf i mem taken (inl f) = inl (record {
  from = omega (arith, f.from);
  upto = f.upto;
  zero_byte = f.zero_byte;
  before = λ j p q. elim (ℕ_discrete lo j) [
    | yes e ↦ rw (← e) taken
    | no ne ↦ f.before j (omega arith) q
  ];
})
Found-next lo hi buf i mem taken (inr (e, all)) = inr (
  e,
  λ j p q. elim (ℕ_discrete lo j) [ yes same ↦ rw (← same) taken | no ne ↦ all j (omega arith) q ],
)

pub find_zero-Found :
    (left lo hi buf : ℕ) (mem : Memory)
    → lo + left ≡ hi
    → Found lo hi buf mem (find_zero left lo buf mem)
unfolding find_zero
find_zero-Found zero lo hi buf mem e = inr (refl, λ j p q. absurd (omega arith))
find_zero-Found (suc left) lo hi buf mem e = elim (ℕ_discrete (mem (buf + lo)) 0) [
  | yes clear ↦ rw (find_zero-found left lo hi buf mem clear) (
      inl (record {
        from = omega arith;
        upto = omega arith;
        zero_byte = clear;
        before = λ j p q. absurd (omega arith);
      }))
  | no taken ↦
      rw (find_zero-next left lo hi buf mem taken)
        (Found-next lo hi buf _ mem taken (find_zero-Found left (lo + 1) hi buf mem (omega arith)))
]

-- What `allocInode` gives and leaves behind where it finds the byte 0 at `i`.
pub record Gives (n buf : ℕ) (mem : Memory) (result : Option ℕ) (after : Memory) : Type 0 where
  pub index : ℕ
  pub is_first : IsFirst 0 n buf mem index
  pub number : result ≡ some index
  pub marked : after ≡ put (u32 (buf + index)) 1 mem

-- And where every byte is taken.
pub record Refuses (n buf : ℕ) (mem : Memory) (result : Option ℕ) (after : Memory) : Type 0 where
  pub all_taken : AllTaken 0 n buf mem
  pub no_number : result ≡ none
  pub stray : after ≡ put (u32 (buf + minus_one)) 1 mem

-- `allocInode` takes the first inode whose byte is 0 and sets that byte, and changes no other; where
-- all are taken it returns NULL, but has by then set the byte in front of the bitmap.
pub alloc_ino-first :
    (n buf : ℕ) (mem : Memory)
    → n < 2 ^ 31
    → let (result, after) = alloc_ino n buf mem in
      Gives n buf mem result after ⊎ Refuses n buf mem result after
unfolding alloc_ino
alloc_ino-first n buf mem few = elim (find_zero-Found n 0 n buf mem (omega arith)) [
  | inl f ↦ inl (record {
    index = find_zero n 0 buf mem;
    is_first = f;
    number = ground (arith, f.upto);
    marked = refl;
  })
  | inr (e, all) ↦ inr (record { all_taken = all; no_number = rw e refl; stray = rw e refl })
]

-- Two inodes that `allocInode` gives out one after the other are different.
pub alloc_ino-distinct :
    (n buf i j : ℕ) (mem : Memory)
    → n < 2 ^ 31
    → buf + n ≤ 2 ^ 32
    → (alloc_ino n buf mem).0 ≡ some i
    → (alloc_ino n buf (alloc_ino n buf mem).1).0 ≡ some j
    → i ≢ j
alloc_ino-distinct n buf i j mem few fits first second same = elim (alloc_ino-first n buf mem few) [
  | inr r ↦ cc (r.no_number, first)
  | inl g ↦ elim (alloc_ino-first n buf (alloc_ino n buf mem).1 few) [
    | inr r ↦ cc (r.no_number, second)
    | inl h ↦
        let i_is : g.index ≡ i = cc (g.number, first) in
        let j_is : h.index ≡ j = cc (h.number, second) in
        let set : (alloc_ino n buf mem).1 (buf + i) ≡ 1 =
          rw g.marked (ground (arith, i_is, g.is_first.upto)) in
        let clear : (alloc_ino n buf mem).1 (buf + j) ≡ 0 = rw (← j_is) h.is_first.zero_byte in
        ground (arith, set, clear, same)
  ]
]

-- Where the data blocks start further in than there are data blocks, `freeData` refuses every
-- address that `allocData` returns and frees nothing: one is counted from the start of the disk,
-- the other from the start of the data.
pub alloc_data-free_data :
    (n data_start buf : ℕ) (mem : Memory)
    → n + 1 < data_start
    → data_start + n < 2 ^ 32
    → let (addr, after) = alloc_data n data_start buf mem in
      free_data n buf addr after ≡ (minus_one, after)
unfolding alloc_data free_data
alloc_data-free_data n data_start buf mem far fits =
    elim (find_zero-Found n 0 n buf mem (omega arith)) [
      | inl f ↦ ground (arith, f.upto)
      | inr (e, all) ↦ ground (arith, e)
    ]

-- With all data blocks taken, `allocData` reports no error: it returns the block in front of the
-- data blocks, and sets the byte in front of the bitmap.
alloc_data-full :
    (n data_start buf : ℕ) (mem : Memory)
    → 0 < data_start
    → data_start < 2 ^ 32
    → AllTaken 0 n buf mem
    → alloc_data n data_start buf mem ≡ (data_start - 1, put (u32 (buf + minus_one)) 1 mem)
unfolding alloc_data
alloc_data-full n data_start buf mem some_block fits all =
    elim (find_zero-Found n 0 n buf mem (omega arith)) [
      | inl f ↦ absurd (all _ f.from f.upto f.zero_byte)
      | inr (e, _) ↦ rw e (ap (λ a. (a, put (u32 (buf + minus_one)) 1 mem)) (omega arith))
    ]

-- `freeInode` accepts the number one past the last, and clears the byte behind the bitmap.
free_inode-past_end :
    (n buf : ℕ) (mem : Memory)
    → n < 2 ^ 31
    → free_inode n buf n mem ≡ (0, put (u32 (buf + n)) 0 mem)
unfolding free_inode
free_inode-past_end n buf mem few = ground arith

put_back : (a b : ℕ) (mem : Memory) → a ≡ b → mem b ≡ 0 → put a 0 (put a 1 mem) ≡ mem
put_back a b mem same clear = fun_ext λ x. ground (arith, clear, same)

-- `freeInode` of the number that `allocInode` has just given out succeeds and puts the whole bitmap
-- back as it was.
pub free_inode-alloc_ino :
    (n buf i : ℕ) (mem : Memory)
    → n < 2 ^ 31
    → buf + n ≤ 2 ^ 32
    → (alloc_ino n buf mem).0 ≡ some i
    → free_inode n buf i (alloc_ino n buf mem).1 ≡ (0, mem)
unfolding free_inode
free_inode-alloc_ino n buf i mem few fits first = elim (alloc_ino-first n buf mem few) [
  | inr r ↦ absurd (cc (r.no_number, first))
  | inl g ↦
      let i_is : g.index ≡ i = cc (g.number, first) in
      let small : i < n = rw (← i_is) g.is_first.upto in
      let clear : mem (buf + i) ≡ 0 = rw (← i_is) g.is_first.zero_byte in
      let accepted : gt_int i n ≡ false = ground arith in
      let back = put_back (u32 (buf + i)) (buf + i) mem (omega arith) clear in
      rw (accepted, g.marked, i_is) (ap (λ m. (0, m)) back)
]
