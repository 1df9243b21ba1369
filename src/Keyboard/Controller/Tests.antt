-- ===== src/Keyboard/Controller/Tests.antt =====
-- A controller with one old byte in its buffer, and a line of one key.
use orcas.Base.{◌≡◌, refl, some, [], ◌∷◌}
use orcas.Util.{put}
use orcas.Keyboard.Controller.{drain, enable, kbd_driver_init, getc, gets, gets_loop}

drained : kbd_driver_init (1 ∷ 0x1c ∷ 0 ∷ 0x50 ∷ []) ≡ some (enable 0x50)
unfolding kbd_driver_init drain
drained = refl

enabled : enable 0x50 ≡ enable 0x41
unfolding enable
enabled = refl

-- The byte 0xff stands for a turn with no key.
empty_turn_stored :
    gets 3 100 (0 ∷ 1 ∷ 97 ∷ 1 ∷ 10 ∷ []) (λ _. 0)
    ≡ some (2, put 102 0 (put 101 97 (put 100 0xff (λ _. 0))))
unfolding gets gets_loop getc
empty_turn_stored = refl
