-- ===== src/Console/Cursor.antt =====
-- Where `putc` moves the cursor, and which memory it writes.
use orcas.Base.{
  ℕ, ◌+◌, ◌-◌, ◌*◌, ◌/◌, ◌%◌, ◌≤◌, ◌<◌, ◌≡◌, ◌≢◌, ◌⊎◌, false, bit_and, bit_or, ◌==◌, ◌&&◌, ◌||◌,
  if◌then◌else◌, arith, List, [], ◌∷◌,
}
use orcas.Base.Bits.{bit_and-high_byte, bit_or-fields}
use orcas.Console.{Console, clear, putc, puts, cell_at, show, widen, csl_width, csl_height}
use orcas.Console.Screen.{
  on_screen, on_screen-range, clear_cols-screen, blank, cell_at-eq, cell_at-off_screen,
}

-- The cursor is on the screen, or one past its last row or its last column.
pub record IsValid (k : Console) : Type 0 where
  pub row_in : k.row ≤ csl_height
  pub col_in : k.col ≤ csl_width

-- From a valid cursor: a character moves it one column on, past column 80 or at '\n' it goes to the
-- next row, and past row 25 the screen is cleared and it goes to the top left.
pub putc-cursor :
    (c : ℕ) (k : Console)
    → IsValid k
    → let wraps = k.col == csl_width || c == 10 in
      let over = wraps && k.row == csl_height in
      ((putc c k).row ≡ (if over then 0 else if wraps then k.row + 1 else k.row))
      × ((putc c k).col ≡ (if wraps then 0 else k.col + 1))
unfolding putc clear
putc-cursor c k v = ground arith

-- `putc` keeps the cursor valid.
putc-IsValid : (c : ℕ) (k : Console) → IsValid k → IsValid (putc c k)
putc-IsValid c k v = ground (arith, putc-cursor c k v)

-- So does a text of any length.
pub puts-IsValid : (str : List ℕ) (k : Console) → IsValid k → IsValid (puts str k)
unfolding puts
puts-IsValid [] k v = v
puts-IsValid (c ∷ str) k v = puts-IsValid str (putc c k) (putc-IsValid c k v)

-- Memory after `putc`: the cell of the cursor, and a blank screen if the last row is left.
putc-video :
    (c : ℕ) (k : Console) (a : ℕ)
    → IsValid k
    → let shown = show (cell_at k.row k.col) (if c == 10 then b' ' else c) k.video in
      (putc c k).video a ≡ (
        if (k.col == csl_width || c == 10) && k.row == csl_height && on_screen a
        then blank (shown a)
        else shown a)
unfolding putc clear
putc-video c k a v =
    ground (
      arith,
      clear_cols-screen (show (cell_at k.row k.col) (if c == 10 then b' ' else c) k.video) a,
    )

-- From a valid cursor `putc` writes nothing outside the 2081 cells from the start of the screen on.
pub putc-bounds :
    (c : ℕ) (k : Console) (a : ℕ)
    → IsValid k
    → (a < 0xb8000) ⊎ (0xb8000 + 2 * 2081 ≤ a)
    → (putc c k).video a ≡ k.video a
putc-bounds c k a v out =
    ground (arith, putc-video c k a v, cell_at-eq k.row k.col v.row_in v.col_in, on_screen-range a)

shown-kept :
    (x d c : ℕ)
    → d < 128
    → bit_or (bit_and (bit_or (bit_and x 0xff00) d) 0xff00) c ≡ bit_or (bit_and x 0xff00) c
shown-kept x d c h = ground (
  arith,
  bit_and-high_byte x,
  bit_or-fields 8 (x / 256 % 256) d,
  bit_and-high_byte (x / 256 % 256 * 256 + d),
)

-- At the end of the last row a '\n' leaves the cursor below the screen, and the character behind
-- it goes to memory past the last cell.
putc-below_screen :
    (c : ℕ) (k : Console)
    → IsValid k
    → k.row ≡ csl_height - 1
    → c ≢ 10
    → let k1 = putc 10 k in
      (on_screen (cell_at k1.row k1.col) ≡ false)
      × ((putc c k1).video (cell_at k1.row k1.col)
          ≡ bit_or (bit_and (k1.video (cell_at k1.row k1.col)) 0xff00) (widen c))
putc-below_screen c k v last ne = ground (
  arith,
  putc-cursor 10 k v,
  cell_at-off_screen 0,
  putc-video c (putc 10 k) (cell_at (putc 10 k).row (putc 10 k).col) (putc-IsValid 10 k v),
)

-- The 81st character of a row is lost: the character that follows it lands in the same cell, so
-- memory and cursor are as if the row had ended before it.
pub putc-lost :
    (d c : ℕ) (k : Console)
    → k.row < csl_height - 1
    → k.col ≡ csl_width
    → d < 128
    → d ≢ 10
    → c ≢ 10
    → (a : ℕ)
    → ((putc c (putc d k)).video a ≡ (putc c (record k { row = k.row + 1; col = 0 })).video a)
      × ((putc c (putc d k)).row ≡ k.row + 1)
      × ((putc c (putc d k)).col ≡ 1)
putc-lost d c k hr hc hd nd nc a =
    let v : IsValid k = omega arith in
    let v' : IsValid (record k { row = k.row + 1; col = 0 }) = omega arith in
    ground (
      arith,
      putc-cursor d k v,
      putc-cursor c (putc d k) (putc-IsValid d k v),
      putc-video d k a v,
      putc-video c (putc d k) a (putc-IsValid d k v),
      putc-video c (record k { row = k.row + 1; col = 0 }) a v',
      cell_at-eq k.row 80 (omega arith) (omega arith),
      cell_at-eq (k.row + 1) 0 (omega arith) (omega arith),
      shown-kept (k.video a) d (widen c) hd,
    )
