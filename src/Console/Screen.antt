-- ===== src/Console/Screen.antt =====
-- What `clear` leaves on the screen.
use orcas.Base.{
  ℕ, zero, suc, ◌+◌, ◌-◌, ◌*◌, ◌/◌, ◌%◌, ◌≤◌, ◌<◌, ◌≡◌, ◌∙◌, refl, Bool, bit_and, bit_or, ◌==◌, ltb,
  leb, ◌&&◌, ◌||◌, true, false, if◌then◌else◌, arith,
}
use orcas.Console.{Console, clear, clear_rows, clear_cols, cell_at, show}

-- The index of a cell's address, and whether an address is that of a cell on the screen.
pub index : ℕ → ℕ
index a = (a - 0xb8000) / 2

pub on_screen : ℕ → Bool
on_screen a = leb 0xb8000 a && ltb a (0xb8000 + 4000) && a % 2 == 0

abbrev pub blank : ℕ → ℕ
blank v = bit_or (bit_and v 0xff00) b' '

cell_at-on_screen :
    (a r c : ℕ) → r < 25 → c < 80 → (a == cell_at r c) ≡ (on_screen a && index a == 80 * r + c)
unfolding cell_at on_screen index
cell_at-on_screen a r c hr hc = ground arith

on_screen-lt : (a : ℕ) → on_screen a ≡ true → index a < 2000
unfolding on_screen index
on_screen-lt a h = ground arith

-- The cells of column `c` in the `left` rows from `r` on, and those of the `left` columns from `c` on.
in_rows : (n c r left : ℕ) → Bool
in_rows n c r left = n % 80 == c && (leb r (n / 80) && ltb (n / 80) (r + left))

in_cols : (n c left : ℕ) → Bool
in_cols n c left = leb c (n % 80) && ltb (n % 80) (c + left)

in_rows-zero : (n c r : ℕ) → in_rows n c r 0 ≡ false
unfolding in_rows
in_rows-zero n c r = ground arith

in_rows-suc :
    (n c r left : ℕ)
    → c < 80
    → in_rows n c r (suc left) ≡ (n == 80 * r + c || in_rows n c (r + 1) left)
unfolding in_rows
in_rows-suc n c r left h = ground arith

in_rows-once : (n c r left : ℕ) → c < 80 → n ≡ 80 * r + c → in_rows n c (r + 1) left ≡ false
unfolding in_rows
in_rows-once n c r left h e = ground arith

in_cols-zero : (n c : ℕ) → in_cols n c 0 ≡ false
unfolding in_cols
in_cols-zero n c = ground arith

in_cols-suc :
    (n c left : ℕ)
    → n < 2000
    → in_cols n c (suc left) ≡ (in_rows n c 0 25 || in_cols n (c + 1) left)
unfolding in_rows in_cols
in_cols-suc n c left h = ground arith

in_cols-once : (n c left : ℕ) → in_rows n c 0 25 ≡ true → in_cols n (c + 1) left ≡ false
unfolding in_rows in_cols
in_cols-once n c left h = ground arith

in_cols-all : (n : ℕ) → in_cols n 0 80 ≡ true
unfolding in_cols
in_cols-all n = ground arith

clear_rows-eq :
    (c left r : ℕ) (video : ℕ → ℕ) (a : ℕ)
    → c < 80
    → r + left ≤ 25
    → clear_rows c left r video a
      ≡ (if on_screen a && in_rows (index a) c r left then blank (video a) else video a)
unfolding clear_rows
clear_rows-eq c zero r video a hc hr = ground (arith, in_rows-zero (index a) c r)
clear_rows-eq c (suc left) r video a hc hr = ground (
  arith,
  clear_rows-eq c left (r + 1) (show (cell_at r c) b' ' video) a hc,
  cell_at-on_screen a r c,
  in_rows-suc (index a) c r left,
  in_rows-once (index a) c r left,
)

clear_cols-eq :
    (left c : ℕ) (video : ℕ → ℕ) (a : ℕ)
    → c + left ≤ 80
    → clear_cols left c video a
      ≡ (if on_screen a && in_cols (index a) c left then blank (video a) else video a)
unfolding clear_cols
clear_cols-eq zero c video a h = ground (arith, in_cols-zero (index a) c)
clear_cols-eq (suc left) c video a h = ground (
  arith,
  clear_cols-eq left (c + 1) (clear_rows c 25 0 video) a,
  clear_rows-eq c 25 0 video a,
  on_screen-lt a,
  in_cols-suc (index a) c left,
  in_cols-once (index a) c left,
)

pub on_screen-range : (a : ℕ) → on_screen a ≡ true → (0xb8000 ≤ a) × (a < 0xb8000 + 4000)
unfolding on_screen
on_screen-range a h = ground arith

-- Past the last row nothing is on the screen.
pub cell_at-off_screen : (c : ℕ) → c ≤ 80 → on_screen (cell_at 25 c) ≡ false
unfolding on_screen cell_at
cell_at-off_screen c h = ground arith

pub cell_at-eq : (r c : ℕ) → r ≤ 25 → c ≤ 80 → cell_at r c ≡ 0xb8000 + 2 * (80 * r + c)
unfolding cell_at
cell_at-eq r c hr hc = omega arith

pub clear_cols-screen :
    (video : ℕ → ℕ) (a : ℕ)
    → clear_cols 80 0 video a ≡ (if on_screen a then blank (video a) else video a)
clear_cols-screen video a =
    clear_cols-eq 80 0 video a (omega arith) ∙ ground (arith, in_cols-all (index a))

-- `clear` puts a blank in each of the 2000 cells of the screen, keeps their attributes and all else
-- in memory, and moves the cursor to the top left.
pub clear-screen :
    (k : Console) (a : ℕ)
    → ((clear k).video a ≡ (if on_screen a then blank (k.video a) else k.video a))
      × ((clear k).row ≡ 0)
      × ((clear k).col ≡ 0)
unfolding clear
clear-screen k a = (clear_cols-screen k.video a, refl, refl)
