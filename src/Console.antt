-- ===== src/Console.antt =====
-- console.c and console.h: the cursor, the text screen and the formatted output. The lock that
-- some of these functions take and give back is left out, and so is the hardware cursor.
pub mod Screen
pub mod Cursor
pub mod Digits
pub mod Format
pub mod Hardware
mod Tests
use orcas.Base.{
  ℕ, zero, suc, ◌+◌, ◌-◌, ◌*◌, ◌/◌, ◌%◌, ◌^◌, bit_and, bit_or, ◌==◌, ltb, leb, gt_int,
  if◌then◌else◌, ◌||◌, u16, u32, true, false, Option, none, some, List, [], ◌∷◌, ◌++◌, reverse,
}

-- CSL_WIDTH, CSL_HEIGHT
abbrev pub csl_width : ℕ
csl_width = 80

abbrev pub csl_height : ℕ
csl_height = 25

-- `row` and `col` are `int`s, as their 32 bits; `video a` is the 16-bit cell at address `a`.
pub record Console : Type 0 where
  pub row : ℕ
  pub col : ℕ
  pub video : ℕ → ℕ

-- `&videoMemory[CSL_WIDTH * row + col]`
pub cell_at : (row col : ℕ) → ℕ
cell_at row col = u32 (0xb8000 + 2 * (csl_width * row + col))

-- A `char` as the operand of `|`: the sign is extended, and the cell keeps 16 bits.
abbrev pub widen : ℕ → ℕ
widen c = if ltb c 128 then c else c + 0xff00

-- `videoMemory[i] = (videoMemory[i] & 0xff00) | c`
abbrev pub show : (cell c : ℕ) → (ℕ → ℕ) → ℕ → ℕ
show cell c video a = if a == cell then bit_or (bit_and (video a) 0xff00) (widen c) else video a

-- The inner and the outer `for` of `clear`, with the rounds left.
clear_rows : (c left r : ℕ) → (ℕ → ℕ) → ℕ → ℕ
clear_rows c zero r video = video
clear_rows c (suc left) r video = clear_rows c left (r + 1) (show (cell_at r c) b' ' video)

pub clear_cols : (left c : ℕ) → (ℕ → ℕ) → ℕ → ℕ
clear_cols zero c video = video
clear_cols (suc left) c video = clear_cols left (c + 1) (clear_rows c csl_height 0 video)

pub clear : Console → Console
clear k = record { row = 0; col = 0; video = clear_cols csl_width 0 k.video }

pub get_pos : Console → ℕ × ℕ
get_pos k = (k.row, k.col)

pub set_pos : (x y c : ℕ) → Console → Console
set_pos x y c k = record { row = x; col = y; video = show (cell_at x y) c k.video }

-- The code of '\n' is 10.
pub putc : ℕ → Console → Console
putc c k =
    let video = show (cell_at k.row k.col) (if c == 10 then b' ' else c) k.video in
    let col = u32 (k.col + 1) in
    let wraps = gt_int col csl_width || c == 10 in
    let row' = if wraps then u32 (k.row + 1) else k.row in
    let col' = if wraps then 0 else col in
    let k' : Console = record { row = row'; col = col'; video = video } in
    if gt_int row' csl_height then clear k' else k'

-- The argument is the text up to its NUL.
pub puts : List ℕ → Console → Console
puts [] k = k
puts (c ∷ str) k = puts str (putc c k)

-- `digits[d]`
abbrev pub digit : ℕ → ℕ
digit d = if ltb d 10 then b'0' + d else b'a' + (d - 10)

-- The `while` that fills `buf`, lowest digit first; `none` means that the fuel ran out.
digit_loop : (fuel num base : ℕ) → Option (List ℕ)
digit_loop zero num base = none
digit_loop (suc fuel) num base = elim (num == 0) [
  | true ↦ some []
  | false ↦ elim (digit_loop fuel (num / base) base) [
    | none ↦ none
    | some buf ↦ some (digit (num % base) ∷ buf)
  ]
]

-- The characters of `printi`, in the order in which it prints them. `num` is an `int` as its 32
-- bits; the negation of the least `int` overflows, which C leaves undefined (`none`).
pub printi_text : (num base : ℕ) → Option (List ℕ)
printi_text num base =
    if num == 0
    then some (b'0' ∷ [])
    else if num == 2 ^ 31
    then none
    else if ltb num (2 ^ 31)
    then elim (digit_loop 32 num base) [ none ↦ none | some buf ↦ some (reverse buf) ]
    else elim (digit_loop 32 (2 ^ 32 - num) base) [
      | none ↦ none
      | some buf ↦ some (reverse (buf ++ (b'-' ∷ [])))
    ]

pub printi : (num base : ℕ) → Console → Option Console
printi num base k = elim (printi_text num base) [ none ↦ none | some str ↦ some (puts str k) ]

-- An argument of `printf`: its word, and the text at the address that the word is.
pub record Arg : Type 0 where
  pub word : ℕ
  pub text : List ℕ

-- What one conversion prints, and the arguments behind it. Only a conversion that is known reads
-- its argument; `none` is a read past the last one.
pub convert : (kind : ℕ) → List Arg → Option (List ℕ)
convert kind [] =
    if kind == b'd' || kind == b'x' || kind == b's' || kind == b'c' then none else some []
convert kind (a ∷ args) =
    if kind == b'd'
    then printi_text a.word 10
    else if kind == b'x'
    then printi_text a.word 16
    else if kind == b's'
    then some a.text
    else if kind == b'c'
    then some ((a.word % 256) ∷ [])
    else some []

abbrev rest_of : List Arg → List Arg
rest_of [] = []
rest_of (a ∷ args) = args

-- The characters that `printf` prints, in order. A `%` at the end makes the loop run past the NUL,
-- which is undefined (`none`).
pub printf_text : (format : List ℕ) → List Arg → Option (List ℕ)
printf_text [] args = some []
printf_text (p ∷ []) args = if p == b'%' then none else some (p ∷ [])
printf_text (p ∷ kind ∷ format) args = elim (p == b'%') [
  | true ↦ elim (convert kind args) [
    | none ↦ none
    | some out ↦ elim (printf_text format (rest_of args)) [
      | none ↦ none
      | some more ↦ some (out ++ more)
    ]
  ]
  | false ↦ elim (printf_text (kind ∷ format) args) [ none ↦ none | some more ↦ some (p ∷ more) ]
]

pub printf : (format : List ℕ) → List Arg → Console → Option Console
printf format args k = elim (printf_text format args) [ none ↦ none | some str ↦ some (puts str k) ]

pub csl_init : Console → Console
csl_init k = record k { row = 0; col = 0 }
