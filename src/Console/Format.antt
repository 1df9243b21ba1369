-- ===== src/Console/Format.antt =====
-- `printf` on a format that is built from pieces.
use orcas.Base.{ℕ, ◌%◌, ◌≡◌, ◌≢◌, ◌∙◌, refl, ap, arith, Option, none, some, List, [], ◌∷◌, ◌++◌}
use orcas.Console.{Arg, convert, printf_text, printi_text}

-- A character that is no '%', or a conversion with its argument.
pub data Piece : Type 0 where
  plain : (c : ℕ) → c ≢ b'%' → Piece
  dec hex str chr : Arg → Piece

-- The format text, and the arguments, of a list of pieces.
abbrev pub format_of : List Piece → List ℕ
format_of [] = []
format_of (plain c _ ∷ ps) = c ∷ format_of ps
format_of (dec _ ∷ ps) = b'%' ∷ b'd' ∷ format_of ps
format_of (hex _ ∷ ps) = b'%' ∷ b'x' ∷ format_of ps
format_of (str _ ∷ ps) = b'%' ∷ b's' ∷ format_of ps
format_of (chr _ ∷ ps) = b'%' ∷ b'c' ∷ format_of ps

abbrev pub args_of : List Piece → List Arg
args_of [] = []
args_of (plain _ _ ∷ ps) = args_of ps
args_of (dec a ∷ ps) = a ∷ args_of ps
args_of (hex a ∷ ps) = a ∷ args_of ps
args_of (str a ∷ ps) = a ∷ args_of ps
args_of (chr a ∷ ps) = a ∷ args_of ps

-- The text of one piece, and of all, one after the other.
abbrev pub shown : Piece → Option (List ℕ)
shown (plain c _) = some (c ∷ [])
shown (dec a) = printi_text a.word 10
shown (hex a) = printi_text a.word 16
shown (str a) = some a.text
shown (chr a) = some ((a.word % 256) ∷ [])

abbrev joined : Option (List ℕ) → Option (List ℕ) → Option (List ℕ)
joined none b = none
joined (some out) none = none
joined (some out) (some more) = some (out ++ more)

abbrev pub all_shown : List Piece → Option (List ℕ)
all_shown [] = some []
all_shown (p ∷ ps) = joined (shown p) (all_shown ps)

module _ (format : List ℕ) (a : Arg) (args : List Arg) where
  conversion :
      (kind : ℕ)
      → printf_text (b'%' ∷ kind ∷ format) (a ∷ args)
        ≡ joined (convert kind (a ∷ args)) (printf_text format args)
  unfolding printf_text
  conversion kind = ground arith

plain_char :
    (c : ℕ) (format : List ℕ) (args : List Arg)
    → c ≢ b'%'
    → printf_text (c ∷ format) args ≡ joined (some (c ∷ [])) (printf_text format args)
unfolding printf_text
plain_char c [] args h = ground arith
plain_char c (k ∷ format) args h = ground arith

-- `printf` prints the pieces of its format in order: plain characters as they are, the conversions
-- d, x, s and c as the argument in their place; nothing is left out, and no argument is skipped.
pub printf_text-pieces : (ps : List Piece) → printf_text (format_of ps) (args_of ps) ≡ all_shown ps
unfolding convert
printf_text-pieces [] = unfold printf_text in refl
printf_text-pieces (plain c h ∷ ps) =
    plain_char c (format_of ps) (args_of ps) h ∙ ap (joined (some (c ∷ []))) (printf_text-pieces ps)
printf_text-pieces (dec a ∷ ps) =
    conversion (format_of ps) a (args_of ps) b'd'
    ∙ ap (joined (printi_text a.word 10)) (printf_text-pieces ps)
printf_text-pieces (hex a ∷ ps) =
    conversion (format_of ps) a (args_of ps) b'x'
    ∙ ap (joined (printi_text a.word 16)) (printf_text-pieces ps)
printf_text-pieces (str a ∷ ps) =
    conversion (format_of ps) a (args_of ps) b's'
    ∙ ap (joined (some a.text)) (printf_text-pieces ps)
printf_text-pieces (chr a ∷ ps) =
    conversion (format_of ps) a (args_of ps) b'c'
    ∙ ap (joined (some ((a.word % 256) ∷ []))) (printf_text-pieces ps)
