-- ===== src/Keyboard/Tests.antt =====
-- Keys and lines at concrete addresses: the line at 100, the command at 200, the argument at 300.
use orcas.Base.{ℕ, ◌≡◌, refl, arith, [], ◌∷◌, inr, none, some}
use orcas.Util.{Memory, put, strcmp}
use orcas.Util.Text.{HasText}
use orcas.Util.Concat.{copied}
use orcas.Keyboard.{Line, press, keymap, parse_cmd, skip_blanks, copy_loop, command, list, erase}
use orcas.Keyboard.Typing.{IsTyped, press_all, press_all-typed, typed_over}
use orcas.Keyboard.Parse.{parse_cmd-one_word}

abbrev empty : Line
empty = record { pos = 0; mem = λ _. 0 }

-- The keys of 'l' and 's'.
l_key-IsTyped : IsTyped 0x26
unfolding keymap
l_key-IsTyped = record { pressed = omega arith; typed = refl }

s_key-IsTyped : IsTyped 0x1f
unfolding keymap
s_key-IsTyped = record { pressed = omega arith; typed = refl }

press_all-typed_test :
    ((press_all 100 (0x26 ∷ 0x1f ∷ []) empty).pos ≡ 2)
    × ((a : ℕ)
        → (press_all 100 (0x26 ∷ 0x1f ∷ []) empty).mem a
          ≡ typed_over 100 0 (0x26 ∷ 0x1f ∷ []) empty.mem a)
press_all-typed_test =
    press_all-typed (0x26 ∷ 0x1f ∷ []) 100 empty (l_key-IsTyped, (s_key-IsTyped, tt)) (omega arith)

-- "ls" at 100
abbrev typed_ls : Memory
typed_ls = put 100 b'l' (put 101 b's' (λ _. 0))

parse_cmd-one_word_test :
    (mem' : Memory) × (parse_cmd 3 100 200 300 typed_ls ≡ some mem')
    × HasText mem' 200 (b'l' ∷ b's' ∷ [])
    × ((a : ℕ) → mem' a ≡ put 202 0 (copied 200 100 2 typed_ls) a)
parse_cmd-one_word_test =
    parse_cmd-one_word 2 100 200 300 typed_ls (b'l' ∷ b's' ∷ []) (omega arith)
      (refl, (λ e. absurd (omega (arith, e))), (refl, (λ e. absurd (omega (arith, e))), refl)) refl
      ((λ e. absurd (omega (arith, e))), ((λ e. absurd (omega (arith, e))), tt)) (inr (omega arith))

-- Behind a space at the end of the line the NUL is copied untested, and the loop goes on past the
-- text: here through 20 bytes without a NUL, until the fuel runs out.
trailing_space : parse_cmd 20 100 200 300 (put 100 b'l' (put 101 b' ' (put 102 0 (λ _. 1)))) ≡ none
unfolding parse_cmd skip_blanks copy_loop
trailing_space = refl

erased :
    press 100 0x0e (record { pos = 0; mem = λ _. 0 })
    ≡ (erase, record { pos = 0xffffffff; mem = λ _. 0 })
unfolding press keymap
erased = refl

-- "ls" at 200, and the constants at 400, 403 and 406.
abbrev constants : Memory
constants =
    put 200 b'l' (put 201 b's' (put 400 b'l' (put 401 b's' (put 403 b'c' (put 404 b'd' (λ _. 0))))))

command-ls : command 9 200 400 403 406 constants ≡ some list
unfolding command strcmp
command-ls = refl
