-- ===== src/Console/Tests.antt =====
-- The console at concrete positions.
use orcas.Base.{ℕ, ◌≡◌, refl, arith, List, [], ◌∷◌, reverse, inl, none, some, if◌then◌else◌}
use orcas.Console.{
  Console, clear, putc, puts, get_pos, set_pos, printi_text, printi, digit_loop, printf_text,
  printf, csl_init,
}
use orcas.Console.Screen.{on_screen, blank, clear-screen}
use orcas.Console.Cursor.{IsValid, putc-cursor, puts-IsValid, putc-bounds, putc-lost}
use orcas.Console.Digits.{IsNumeral, magnitude, printi_text-prints}
use orcas.Console.Format.{Piece, plain, dec, str, format_of, args_of, all_shown, printf_text-pieces}

abbrev at : (row col : ℕ) → Console
at row col = record { row = row; col = col; video = λ _. 0x0700 }

in_last_column : IsValid (at 3 80)
in_last_column = record { row_in = omega arith; col_in = omega arith }

clear-screen_test :
    ((clear (at 3 80)).video 7 ≡ (if on_screen 7 then blank 0x0700 else 0x0700))
    × ((clear (at 3 80)).row ≡ 0)
    × ((clear (at 3 80)).col ≡ 0)
clear-screen_test = clear-screen (at 3 80) 7

putc-cursor_test : ((putc b'a' (at 3 80)).row ≡ 4) × ((putc b'a' (at 3 80)).col ≡ 0)
putc-cursor_test = putc-cursor b'a' (at 3 80) in_last_column

puts-IsValid_test : IsValid (puts (b'a' ∷ b'b' ∷ []) (at 3 80))
puts-IsValid_test = puts-IsValid (b'a' ∷ b'b' ∷ []) (at 3 80) in_last_column

putc-bounds_example : (putc b'a' (at 3 80)).video 7 ≡ 0x0700
putc-bounds_example = putc-bounds b'a' (at 3 80) 7 in_last_column (inl (omega arith))

putc-lost_test :
    ((putc b'b' (putc b'a' (at 3 80))).video 9 ≡ (putc b'b' (at 4 0)).video 9)
    × ((putc b'b' (putc b'a' (at 3 80))).row ≡ 4)
    × ((putc b'b' (putc b'a' (at 3 80))).col ≡ 1)
putc-lost_test =
    putc-lost b'a' b'b' (at 3 80) (omega arith) refl (omega arith) (λ e. absurd (omega (arith, e)))
      (λ e. absurd (omega (arith, e))) 9

printi_text-prints_example :
    (ds : List ℕ) × (printi_text 0xfffffff6 10 ≡ some (b'-' ∷ reverse ds))
    × IsNumeral (magnitude 0xfffffff6) 10 ds
printi_text-prints_example =
    printi_text-prints 0xfffffff6 10 (omega arith) (omega arith) (omega arith)
      (λ e. absurd (omega (arith, e)))

abbrev pieces : List Piece
pieces =
    plain b'n' (λ e. absurd (omega (arith, e)))
    ∷ dec (record { word = 42; text = [] })
    ∷ str (record { word = 0; text = b'o' ∷ b'k' ∷ [] })
    ∷ []

printf_text-pieces_example : printf_text (format_of pieces) (args_of pieces) ≡ all_shown pieces
printf_text-pieces_example = printf_text-pieces pieces

printi-ten : printi 10 10 (at 0 0) ≡ some (puts (b'1' ∷ b'0' ∷ []) (at 0 0))
unfolding printi printi_text digit_loop
printi-ten = refl

printf-percent : printf (b'%' ∷ []) [] (at 0 0) ≡ none
unfolding printf printf_text
printf-percent = refl

set_pos-get_pos : get_pos (set_pos 3 4 b' ' (at 0 0)) ≡ (3, 4)
unfolding get_pos set_pos
set_pos-get_pos = refl

csl_init-keeps : (csl_init (at 5 6)).video 9 ≡ 0x0700
unfolding csl_init
csl_init-keeps = refl
