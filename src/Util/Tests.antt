-- ===== src/Util/Tests.antt =====
-- The functions of util.c on short texts: "ab" at 100, "abc" at 200, '/' at 300.
use orcas.Base.{ℕ, ◌≡◌, refl, arith, [], ◌∷◌, inl, inr, some}
use orcas.Util.{Memory, put, memmove, strcmp, strncpy, strcat, split, minus_one}
use orcas.Util.Text.{HasText}
use orcas.Util.Copy.{memmove-copies, strncpy-copies}
use orcas.Util.Compare.{strcmp-starts}
use orcas.Util.Concat.{copied, strcat-appends}
use orcas.Util.Split.{split-count}

abbrev texts : Memory
texts = put 100 b'a' (
    put 101 b'b'
      (put 200 b'a' (put 201 b'b' (put 202 b'c' (put 300 b'/' (put 301 b'x' (λ _. 0)))))))

ab : HasText texts 100 (b'a' ∷ b'b' ∷ [])
ab = (refl, (λ e. absurd (omega (arith, e))), (refl, (λ e. absurd (omega (arith, e))), refl))

abc : HasText texts 200 (b'a' ∷ b'b' ∷ b'c' ∷ [])
abc = (
  refl,
  (λ e. absurd (omega (arith, e))),
  (refl, (λ e. absurd (omega (arith, e))), (refl, (λ e. absurd (omega (arith, e))), refl)),
)

path : HasText texts 300 (b'/' ∷ b'x' ∷ [])
path = (refl, (λ e. absurd (omega (arith, e))), (refl, (λ e. absurd (omega (arith, e))), refl))

memmove-copies_test : memmove 99 200 3 texts 101 ≡ b'c'
memmove-copies_test = memmove-copies 99 200 3 texts 101 (inl (omega arith))

strcmp-starts_test : strcmp 3 100 200 texts ≡ some minus_one
strcmp-starts_test =
    strcmp-starts 3 100 200 texts (b'a' ∷ b'b' ∷ []) (b'a' ∷ b'b' ∷ b'c' ∷ []) (omega arith) ab abc

strncpy-copies_example :
    ((strncpy 400 200 5 texts).0 ≡ 2) × ((strncpy 400 200 5 texts).1 402 ≡ b'c')
strncpy-copies_example =
    strncpy-copies 400 200 5 texts (b'a' ∷ b'b' ∷ b'c' ∷ []) 402 abc (inr (omega arith))

strcat-appends_test :
    (mem' : Memory) × (strcat 4 100 200 texts ≡ some mem')
    × ((a : ℕ) → mem' a ≡ copied 102 200 3 texts a)
    × HasText (put 105 0 mem') 100 (b'a' ∷ b'b' ∷ b'a' ∷ b'b' ∷ b'c' ∷ [])
strcat-appends_test =
    strcat-appends 4 100 200 texts (b'a' ∷ b'b' ∷ []) (b'a' ∷ b'b' ∷ b'c' ∷ []) (omega arith)
      (omega arith) ab abc (inl (omega arith))

-- "/x" has one term, but none is counted.
split-count_test : (mem' : Memory) × (split 3 300 b'/' 400 texts ≡ some (0, mem'))
split-count_test =
    split-count 3 300 b'/' 400 texts (b'/' ∷ b'x' ∷ []) (omega arith)
      (λ e. absurd (omega (arith, e))) path (omega arith)
