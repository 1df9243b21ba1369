-- ===== src/Fs/Descriptor.antt =====
-- Which descriptors `open`, `creat` and `close` give out and take back.
use orcas.Base.{
  ℕ, zero, suc, ◌+◌, ◌*◌, ◌/◌, ◌%◌, ◌^◌, ◌≤◌, ◌<◌, ◌≡◌, refl, arith, inl, inr, some, Option-cases,
  ap, ◌>>>◌, List, [], ◌∷◌, get_or, ◌∙◌,
}
use native.Mathlib.Decide.{ℕ_discrete}
use orcas.Base.Bits.{bit_and-one}
use orcas.Util.{minus_one}
use orcas.Fs.{clear_bit, word_loop, find_fd, OpenFile, open_file}

-- `open` marks no descriptor as taken: a second `open` with no `close` between them gives the same
-- descriptor, which then stands for the second file only.
open_file-open_file :
    (ind type mode ind' type' mode' : ℕ) (tbl : OpenFile)
    → let (fd, after) = open_file ind type mode tbl in
      let (fd', after') = open_file ind' type' mode' after in
      (fd ≡ fd') × ((after.fds fd).ind ≡ ind) × ((after'.fds fd).ind ≡ ind')
unfolding open_file
open_file-open_file ind type mode ind' type' mode' tbl = (refl, ground arith, ground arith)

-- `b` is the first clear bit of the word from `lo` up to 32.
pub record IsClear (lo word b : ℕ) : Type 0 where
  pub from : lo ≤ b
  pub upto : b < 32
  pub clear : (word / 2 ^ b) % 2 ≡ 0
  pub before : (k : ℕ) → lo ≤ k → k < b → (word / 2 ^ k) % 2 ≡ 1

module _ (left lo word : ℕ) where
  clear_bit-found : (word / 2 ^ lo) % 2 ≡ 0 → clear_bit (suc left) lo word ≡ some lo
  unfolding clear_bit
  clear_bit-found e = rw (bit_and-one (word >>> lo), e) refl

  clear_bit-next :
      (word / 2 ^ lo) % 2 ≡ 1 → clear_bit (suc left) lo word ≡ clear_bit left (lo + 1) word
  unfolding clear_bit
  clear_bit-next e = rw (bit_and-one (word >>> lo), e) refl

clear_bit-IsClear :
    (left lo word b : ℕ) → lo + left ≡ 32 → IsClear lo word b → clear_bit left lo word ≡ some b
clear_bit-IsClear zero lo word b e c = absurd (omega (arith, c.from, c.upto))
clear_bit-IsClear (suc left) lo word b e c = elim (ℕ_discrete lo b) [
  | yes same ↦ clear_bit-found left lo word (rw same c.clear) ∙ ap some same
  | no ne ↦
      clear_bit-next left lo word (c.before lo (omega arith) (omega (arith, c.from)))
      ∙ clear_bit-IsClear left (lo + 1) word b (omega arith) (record {
        from = omega (arith, c.from);
        upto = c.upto;
        clear = c.clear;
        before = λ k p q. c.before k (omega arith) q;
      })
]

word_loop-done : (i fd : ℕ) (bitmap : List ℕ) → word_loop 0 i fd bitmap ≡ fd
unfolding word_loop
word_loop-done i fd bitmap = refl

-- A round of the outer loop; what it found earlier does not matter where this word has a clear bit.
module _ (left i fd : ℕ) (bitmap : List ℕ) where
  word_loop-some :
      (b : ℕ)
      → clear_bit 32 0 (get_or bitmap i 0) ≡ some b
      → word_loop (suc left) i fd bitmap ≡ word_loop left (i + 1) (i * 4 + b) bitmap
  unfolding word_loop
  word_loop-some b e = rw (e, word_loop) refl

  word_loop-round :
      (fd' : ℕ) × (word_loop (suc left) i fd bitmap ≡ word_loop left (i + 1) fd' bitmap)
  unfolding word_loop
  word_loop-round = elim (Option-cases (clear_bit 32 0 (get_or bitmap i 0))) [
    | inl e ↦ (fd, rw (e, word_loop) refl)
    | inr (b, e) ↦ (i * 4 + b, word_loop-some b e)
  ]

word_loop-last :
    (fd w0 w1 w2 w3 b : ℕ) → IsClear 0 w3 b → word_loop 1 3 fd (w0 ∷ w1 ∷ w2 ∷ w3 ∷ []) ≡ 12 + b
word_loop-last fd w0 w1 w2 w3 b c =
    let words = w0 ∷ w1 ∷ w2 ∷ w3 ∷ [] in
    word_loop-some 0 3 fd words b (clear_bit-IsClear 32 0 w3 b refl c)
    ∙ word_loop-done 4 (12 + b) words

-- `open` takes the first clear bit of the last word of the bitmap, whatever bits are clear in the
-- words before it, since `break` leaves the inner loop only; and it counts 4 to a word, not 32.
pub find_fd-last : (w0 w1 w2 w3 b : ℕ) → IsClear 0 w3 b → find_fd (w0 ∷ w1 ∷ w2 ∷ w3 ∷ []) ≡ 12 + b
unfolding find_fd
find_fd-last w0 w1 w2 w3 b c =
    let words = w0 ∷ w1 ∷ w2 ∷ w3 ∷ [] in
    let (fd1, e1) = word_loop-round 3 0 minus_one words in
    let (fd2, e2) = word_loop-round 2 1 fd1 words in
    let (fd3, e3) = word_loop-round 1 2 fd2 words in
    e1 ∙ e2 ∙ e3 ∙ word_loop-last fd3 w0 w1 w2 w3 b c
