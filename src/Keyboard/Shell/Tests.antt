-- ===== src/Keyboard/Shell/Tests.antt =====
-- The keys on the sample tree, with the line at 2000, the command behind it, and "ls" at 2300.
use orcas.Base.{◌≡◌, refl, arith, some, [], ◌∷◌}
use orcas.Util.{put}
use orcas.Keyboard.{show, enter}
use orcas.Keyboard.Shell.{Shell, Places, listing, quiet, kbd_interrupt_handler}
use orcas.Keyboard.Shell.Enter.{typing-ls}
use orcas.Fs.Directory.Walk.{IsDirectory}
use orcas.Fs.Calls.Sample.{small_tree, two_inodes, words, locals, only_a, only_7, tree-IsDirectory}

abbrev prompt : Shell
prompt = record { pos = 0; tree = record small_tree { mem = put 2300 b'l' (put 2301 b's' words) } }

abbrev places : Places
places = record {
  line = 2000;
  cmd = 2100;
  arg = 2200;
  ls_text = 2300;
  cd_text = 2310;
  mkdir_text = 2320;
  locals = locals;
}

typing-ls_example :
    (sh1 : Shell) × (sh2 : Shell) × (sh3 : Shell) × (kbd_interrupt_handler 101 0x26 places prompt
      ≡ some (show b'l', quiet, sh1))
    × (kbd_interrupt_handler 101 0x1f places sh1 ≡ some (show b's', quiet, sh2))
    × (kbd_interrupt_handler 101 0x1c places sh2 ≡ some (enter, listing ((b'a' ∷ []) ∷ []), sh3))
    × (sh3.pos ≡ 0)
    × (sh3.tree.inodes ≡ two_inodes)
    × IsDirectory sh3.tree 5 only_a only_7
typing-ls_example =
    typing-ls 100 places prompt only_a only_7 (omega arith)
      (record {
        ls_there = (
          refl,
          (λ e. absurd (omega (arith, e))),
          (refl, (λ e. absurd (omega (arith, e))), refl),
        );
        cmd_behind = omega arith;
        ls_behind = omega arith;
        in_reach = omega arith;
      })
      refl
      (record {
        small = tree-IsDirectory.small;
        on_first = tree-IsDirectory.on_first;
        resident = tree-IsDirectory.resident;
        entries = tree-IsDirectory.entries;
      })
