-- ===== src/Base/Bits.antt =====
-- What `&` with a mask and `|` of separate fields mean as arithmetic, at every width.
use Prim.Native.Nat.{
  ℕ, zero, suc, ◌+◌, ◌-◌, ◌*◌, ◌/◌, ◌%◌, ◌^◌, ◌≤◌, ◌<◌, min, max, bit_and, bit_or, digits,
  bit_and-bitwise, bit_or-bitwise,
}
use mathlib.Core.Path.{◌≡◌, refl, ap}
use native.Mathlib.Nat.{pow-suc, one-le-pow}
use native.Mathlib.Omega.{arith}

-- Any fuel that is large enough gives the same digits.
enough_fuel :
    (z : ℕ → ℕ) (f : ℕ → ℕ → ℕ) (k l x y : ℕ) → x ≤ k → x ≤ l → digits z f k x y ≡ digits z f l x y
enough_fuel z f zero zero x y p q = refl
enough_fuel z f zero (suc l) zero y p q = refl
enough_fuel z f zero (suc l) (suc x) y p q = absurd (omega arith)
enough_fuel z f (suc k) zero zero y p q = refl
enough_fuel z f (suc k) zero (suc x) y p q = absurd (omega arith)
enough_fuel z f (suc k) (suc l) zero y p q = refl
enough_fuel z f (suc k) (suc l) (suc x) y p q =
    rw (enough_fuel z f k l (suc x / 2) (y / 2) (omega arith) (omega arith))

-- The lowest digit, and the rest.
bit_and-halve : (x y : ℕ) → bit_and x y ≡ bit_and (x / 2) (y / 2) * 2 + min (x % 2) (y % 2)
bit_and-halve zero y = simp bit_and-bitwise (omega arith)
bit_and-halve (suc x) y = simp bit_and-bitwise (
    omega (
      arith,
      enough_fuel (λ b. 0) min x (suc x / 2) (suc x / 2) (y / 2) (omega arith) (omega arith),
    ))

bit_or-halve : (x y : ℕ) → bit_or x y ≡ bit_or (x / 2) (y / 2) * 2 + max (x % 2) (y % 2)
bit_or-halve zero y = simp bit_or-bitwise (omega arith)
bit_or-halve (suc x) y = simp bit_or-bitwise (
    omega (
      arith,
      enough_fuel (λ b. b) max x (suc x / 2) (suc x / 2) (y / 2) (omega arith) (omega arith),
    ))

bit_and-zero_below : (k x : ℕ) → x ≤ k → bit_and x 0 ≡ 0
bit_and-zero_below k zero h = refl
bit_and-zero_below zero (suc x) h = absurd (omega arith)
bit_and-zero_below (suc k) (suc x) h =
    omega (arith, bit_and-halve (suc x) 0, bit_and-zero_below k (suc x / 2) (omega arith))

bit_or-zero_below : (k x : ℕ) → x ≤ k → bit_or x 0 ≡ x
bit_or-zero_below k zero h = refl
bit_or-zero_below zero (suc x) h = absurd (omega arith)
bit_or-zero_below (suc k) (suc x) h =
    omega (arith, bit_or-halve (suc x) 0, bit_or-zero_below k (suc x / 2) (omega arith))

pub bit_and-zero : (x : ℕ) → bit_and x 0 ≡ 0
bit_and-zero x = bit_and-zero_below x x (omega arith)

bit_or-zero : (x : ℕ) → bit_or x 0 ≡ x
bit_or-zero x = bit_or-zero_below x x (omega arith)

-- Bit 0.
pub bit_and-one : (x : ℕ) → bit_and x 1 ≡ x % 2
bit_and-one x = omega (arith, bit_and-halve x 1, bit_and-zero (x / 2))

pub bit_or-one : (x : ℕ) → bit_or x 1 ≡ x / 2 * 2 + 1
bit_or-one x = omega (arith, bit_or-halve x 1, bit_or-zero (x / 2))

double_pow : (q k : ℕ) → q * 2 ^ suc k ≡ 2 * (q * 2 ^ k)
double_pow q k = omega (arith, ap (λ (t : ℕ). q * t) (pow-suc 2 k))

-- `h` above `k` zero bits, with `r` below.
pub bit_or-fields : (k h r : ℕ) → r < 2 ^ k → bit_or (h * 2 ^ k) r ≡ h * 2 ^ k + r
bit_or-fields zero h r lt = ground (arith, bit_or-zero h)
bit_or-fields (suc k) h r lt = ground (
  arith,
  bit_or-halve (h * 2 ^ suc k) r,
  double_pow h k,
  pow-suc 2 k,
  bit_or-fields k h (r / 2) (omega (arith, pow-suc 2 k)),
)

-- A mask of `k` ones keeps what stands below `h`.
bit_and-ones_fields : (k h r : ℕ) → r < 2 ^ k → bit_and (h * 2 ^ k + r) (2 ^ k - 1) ≡ r
bit_and-ones_fields zero h r lt = omega (arith, bit_and-zero (h * 1 + r))
bit_and-ones_fields (suc k) h r lt = ground (
  arith,
  bit_and-halve (h * 2 ^ suc k + r) (2 ^ suc k - 1),
  double_pow h k,
  pow-suc 2 k,
  one-le-pow k 2,
  bit_and-ones_fields k h (r / 2) (omega (arith, pow-suc 2 k)),
)

-- `x & (2 ^ k - 1)`
pub bit_and-ones : (k x : ℕ) → bit_and x (2 ^ k - 1) ≡ x % 2 ^ k
bit_and-ones k x = ground (arith, one-le-pow k 2, bit_and-ones_fields k (x / 2 ^ k) (x % 2 ^ k))

-- A mask with `k` zeros at its low end.
bit_and-high_fields :
    (k h r m : ℕ) → r < 2 ^ k → bit_and (h * 2 ^ k + r) (m * 2 ^ k) ≡ bit_and h m * 2 ^ k
bit_and-high_fields zero h r m lt = let e : r ≡ 0 = omega arith in ground (arith, e)
bit_and-high_fields (suc k) h r m lt = ground (
  arith,
  bit_and-halve (h * 2 ^ suc k + r) (m * 2 ^ suc k),
  double_pow h k,
  double_pow m k,
  double_pow (bit_and h m) k,
  pow-suc 2 k,
  bit_and-high_fields k h (r / 2) m (omega (arith, pow-suc 2 k)),
)

-- `x & ~0xfff` on 32 bits
pub bit_and-page : (x : ℕ) → x < 2 ^ 32 → bit_and x 0xfffff000 ≡ x / 4096 * 4096
bit_and-page x h = ground (
  arith,
  bit_and-high_fields 12 (x / 4096) (x % 4096) (2 ^ 20 - 1) (omega arith),
  bit_and-ones 20 (x / 4096),
)

-- `x & 0xff00`
pub bit_and-high_byte : (x : ℕ) → bit_and x 0xff00 ≡ x / 256 % 256 * 256
bit_and-high_byte x = ground (
  arith,
  bit_and-high_fields 8 (x / 256) (x % 256) (2 ^ 8 - 1) (omega arith),
  bit_and-ones 8 (x / 256),
)
