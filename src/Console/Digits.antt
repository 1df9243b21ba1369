-- ===== src/Console/Digits.antt =====
-- The numerals that `printi` prints.
use native.Mathlib.Nat.{pow-suc}
use native.Mathlib.Decide.{ℕ_discrete, dec_lt}
use mathlib.Core.List.{reverse-append}
use orcas.Base.{
  ℕ, zero, suc, ◌+◌, ◌-◌, ◌*◌, ◌/◌, ◌%◌, ◌^◌, ◌≤◌, ◌<◌, ◌≡◌, ◌≢◌, ◌∙◌, ap, ltb, if◌then◌else◌,
  arith, some, refl, leb, ◌&&◌, ◌⊎◌, inl, inr, List, [], ◌∷◌, ◌++◌, reverse, length, lt→ltb,
  le→ltb_false,
}
use orcas.Console.{digit, digit_loop, printi_text}

-- The value of a character from '0' to '9' or from 'a' to 'f', and 16 for any other.
abbrev digit_value : ℕ → ℕ
digit_value c =
    if leb b'0' c && leb c b'9'
    then c - b'0'
    else if leb b'a' c && leb c b'f'
    then c - b'a' + 10
    else 16

-- The value of a numeral, lowest digit first.

abbrev value : (base : ℕ) → List ℕ → ℕ
value base [] = 0
value base (c ∷ buf) = digit_value c + base * value base buf

digit_value-digit : (d : ℕ) → d < 16 → digit_value (digit d) ≡ d
digit_value-digit d h = ground arith

-- All characters are digits of the base.
abbrev AreDigits : (base : ℕ) → List ℕ → Type 0
AreDigits base [] = Unit {0}
AreDigits base (c ∷ buf) = (digit_value c < base) × AreDigits base buf

-- The value of the highest digit.
pub lead : List ℕ → ℕ
lead [] = 0
lead (c ∷ []) = digit_value c
lead (c ∷ d ∷ buf) = lead (d ∷ buf)

-- The digits of the number in the base, lowest first, without leading zeros, and not too many for
-- `buf`.
pub record IsNumeral (num base : ℕ) (buf : List ℕ) : Type 0 where
  pub means : value base buf ≡ num
  pub digits : AreDigits base buf
  pub leading : (buf ≡ b'0' ∷ []) ⊎ (lead buf ≢ 0)
  pub short : length buf ≤ 31

lead-longer : (c : ℕ) (buf : List ℕ) → lead buf ≢ 0 → lead (c ∷ buf) ≢ 0
unfolding lead
lead-longer c [] h e = h refl
lead-longer c (d ∷ buf) h e = h e

-- With one more digit in front of those of the quotient.
lead-next :
    (base num : ℕ) (buf : List ℕ)
    → 2 ≤ base
    → base ≤ 16
    → num ≢ 0
    → ((num / base ≡ 0) × (buf ≡ [])) ⊎ (lead buf ≢ 0)
    → lead (digit (num % base) ∷ buf) ≢ 0
unfolding lead
lead-next base num buf lo hi nz (inl (e, none)) z =
    let only : lead (digit (num % base) ∷ buf) ≡ digit_value (digit (num % base)) =
      ap (λ b. lead (digit (num % base) ∷ b)) none in
    let rem : num % base < base = omega arith in
    let whole : base * (num / base) ≡ 0 = ap (λ q. base * q) e ∙ omega arith in
    nz (omega (arith, z, only, whole, digit_value-digit (num % base) (omega arith)))
lead-next base num buf lo hi nz (inr h) z = lead-longer (digit (num % base)) buf h z

module _ (base : ℕ) (lo : 2 ≤ base) (hi : base ≤ 16) where
  quotient-lt : (n k : ℕ) → n < 2 ^ suc k → n / base < 2 ^ k
  quotient-lt n k h =
      let half : base * (n / base) ≤ n = omega arith in
      let twice : 2 * (n / base) ≤ base * (n / base) = grind arith in omega (arith, pow-suc 2 k)

  digit_loop-value :
      (k num : ℕ)
      → num < 2 ^ k
      → (buf : List ℕ) × (digit_loop (suc k) num base ≡ some buf)
        × (value base buf ≡ num)
        × (length buf ≤ k)
        × AreDigits base buf
        × (((num ≡ 0) × (buf ≡ [])) ⊎ (lead buf ≢ 0))
  unfolding digit_loop
  digit_loop-value zero num h =
      ([], ground arith, omega arith, omega arith, tt, inl (omega arith, refl))
  digit_loop-value (suc k) num h = elim (ℕ_discrete num 0) [
    | yes e ↦ ([], ground arith, omega arith, omega arith, tt, inl (e, refl))
    | no ne ↦
        let (buf, run, means, short, digits, top) =
          digit_loop-value k (num / base) (quotient-lt num k h) in
        let rem : num % base < 16 = omega arith in
        (
          digit (num % base) ∷ buf,
          ground arith,
          omega (arith, digit_value-digit (num % base) rem, ap (λ (t : ℕ). base * t) means),
          omega arith,
          (omega (arith, digit_value-digit (num % base) rem), digits),
          inr (lead-next base num buf lo hi ne top),
        )
  ]

not_none :
    (num : ℕ) (buf : List ℕ) → num ≢ 0 → ((num ≡ 0) × (buf ≡ [])) ⊎ (lead buf ≢ 0) → lead buf ≢ 0
not_none num buf nz (inl (e, _)) = absurd (nz e)
not_none num buf nz (inr h) = h

pub magnitude : ℕ → ℕ
magnitude num = if ltb num (2 ^ 31) then num else 2 ^ 32 - num

printi_text-nonneg :
    (num base : ℕ) (ds : List ℕ)
    → num ≢ 0
    → num < 2 ^ 31
    → digit_loop 32 num base ≡ some ds
    → printi_text num base ≡ some (reverse ds)
unfolding printi_text
printi_text-nonneg num base ds nz h run = ground (arith, run)

printi_text-neg :
    (num base : ℕ) (ds : List ℕ)
    → 2 ^ 31 < num
    → digit_loop 32 (2 ^ 32 - num) base ≡ some ds
    → printi_text num base ≡ some (reverse (ds ++ (b'-' ∷ [])))
unfolding printi_text
printi_text-neg num base ds h run = ground (arith, run)

printi_text-zero :
    (num base : ℕ)
    → num ≡ 0
    → printi_text num base ≡ some (if ltb num (2 ^ 31) then b'0' ∷ [] else b'-' ∷ b'0' ∷ [])
unfolding printi_text
printi_text-zero num base e = ground arith

-- In every base from 2 to 16, for every `int` but the least one, `printi` prints the digits of its
-- magnitude in that base, '0' to '9' and 'a' to 'f', highest first and without leading zeros, with a
-- '-' in front exactly of the negative ones; the digits and the sign fit its buffer of 32 characters.
pub printi_text-prints :
    (num base : ℕ)
    → 2 ≤ base
    → base ≤ 16
    → num < 2 ^ 32
    → num ≢ 2 ^ 31
    → (ds : List ℕ) × (printi_text num base
        ≡ some (if ltb num (2 ^ 31) then reverse ds else b'-' ∷ reverse ds))
      × IsNumeral (magnitude num) base ds
unfolding magnitude
printi_text-prints num base lo hi word ne = elim (dec_lt num (2 ^ 31)) [
  | yes small ↦ elim (ℕ_discrete num 0) [
    | yes zero_num ↦ (
      b'0' ∷ [],
      printi_text-zero num base zero_num,
      record {
        means = ground arith;
        digits = (omega arith, tt);
        leading = inl refl;
        short = omega arith;
      },
    )
    | no nz ↦
        let (ds, run, means, short, digits, top) = digit_loop-value base lo hi 31 num small in
        (
          ds,
          rw (lt→ltb num (2 ^ 31) small) (printi_text-nonneg num base ds nz small run),
          record {
            means = ground arith;
            digits = digits;
            leading = inr (not_none num ds nz top);
            short = short;
          },
        )
  ]
  | no large ↦
      let (ds, run, means, short, digits, top) =
        digit_loop-value base lo hi 31 (2 ^ 32 - num) (omega arith) in
      (
        ds,
        rw (le→ltb_false num (2 ^ 31) (omega arith)) (
            printi_text-neg num base ds (omega arith) run
            ∙ ap some (reverse-append ds (b'-' ∷ []))),
        record {
          means = ground arith;
          digits = digits;
          leading = inr (not_none (2 ^ 32 - num) ds (λ e. absurd (omega (arith, e))) top);
          short = short;
        },
      )
]
