-- ===== src/Keyboard/Shell/Enter.antt =====
-- The line "ls" is entered.
use orcas.Base.{
  ℕ, suc, ◌+◌, ◌≤◌, ◌<◌, ◌^◌, ◌≡◌, ◌∙◌, ◌&&◌, ltb, arith, some, List, [], ◌∷◌, refl, inl, inr, true,
  u32, ap,
}
use orcas.Util.{Memory, put, strcmp}
use orcas.Util.Text.{HasText, HasText-put, HasText-shift}
use orcas.Util.Compare.{strcmp-same}
use orcas.Keyboard.{enter, show, press, keymap, command, parse_cmd}
use orcas.Keyboard.Parse.{parse_cmd-one_word}
use orcas.Keyboard.Shell.{
  Shell, Places, Output, listing, quiet, run_command, run_line, run_entered, kbd_interrupt_handler,
}
use orcas.Fs.Directory.{Tree, namelen, ls}
use orcas.Fs.Directory.Walk.{IsDirectory}
use orcas.Fs.Directory.Listing.{first_names, entries_in, ls-names}

abbrev enter_key : ℕ
enter_key = 0x1c

abbrev pub word_ls : List ℕ
word_ls = b'l' ∷ b's' ∷ []

press-enter :
    (line pos : ℕ) (mem : Memory)
    → 0 < pos
    → pos < 2 ^ 31
    → press line enter_key (record { pos = pos; mem = mem })
      ≡ (enter, record { pos = 0; mem = put (u32 (line + pos)) 0 mem })
unfolding press keymap
press-enter line pos mem h k = ground arith

run_entered-far :
    (fuel pos : ℕ) (a : Places) (mem : Memory) (out : Output) (t t' : Tree)
    → (ltb 0 pos && ltb pos (2 ^ 31)) ≡ true
    → run_line fuel a (record t { mem = mem }) ≡ some (out, t')
    → run_entered fuel pos a enter (record { pos = 0; mem = mem }) t
      ≡ some (enter, out, record { pos = 0; tree = t' })
unfolding run_entered
run_entered-far fuel pos a mem out t t' h run = rw (h, run, run_entered) refl

handler-far :
    (fuel : ℕ) (a : Places) (sh : Shell) (out : Output) (t' : Tree)
    → 0 < sh.pos
    → sh.pos < 2 ^ 31
    → run_line fuel a (record sh.tree { mem = put (u32 (a.line + sh.pos)) 0 sh.tree.mem })
      ≡ some (out, t')
    → kbd_interrupt_handler fuel enter_key a sh ≡ some (enter, out, record { pos = 0; tree = t' })
unfolding kbd_interrupt_handler
handler-far fuel a sh out t' h k run =
    ap (λ r. run_entered fuel sh.pos a r.0 r.1 sh.tree) (press-enter a.line sh.pos sh.tree.mem h k)
    ∙ run_entered-far fuel sh.pos a (put (u32 (a.line + sh.pos)) 0 sh.tree.mem) out sh.tree t'
        (ground (arith, h, k)) run

run_line-far :
    (fuel : ℕ) (a : Places) (t t' : Tree) (mem : Memory) (names : List (List ℕ))
    → parse_cmd fuel a.line a.cmd a.arg t.mem ≡ some mem
    → strcmp fuel a.cmd a.ls_text mem ≡ some 0
    → ls fuel a.locals.de (record t { mem = mem }) ≡ some (0, names, t')
    → run_line fuel a t ≡ some (listing names, t')
unfolding run_line command run_command
run_line-far fuel a t t' mem names parsed same listed =
    rw (parsed, run_line) (rw (same, command) (rw (listed, run_command) refl))

-- Where the arrays are: `line`, then `cmd`, both clear of the text "ls".
pub record ArePlaced (a : Places) (mem : Memory) : Type 0 where
  pub ls_there : HasText mem a.ls_text word_ls
  pub cmd_behind : a.line + 2 < a.cmd
  pub ls_behind : a.cmd + 2 < a.ls_text
  pub in_reach : a.line + 2 < 2 ^ 32

-- Enter behind the typed letters "ls", with `line` in front of `cmd` and that in front of the text
-- "ls", and the current directory in one block: the handler prints the names of its entries in
-- order, empties the line, and changes no inode and no entry.
pub enter-ls :
    (fuel : ℕ) (a : Places) (sh : Shell) (names : ℕ → List ℕ) (inos : ℕ → ℕ)
    → namelen ≤ fuel
    → ArePlaced a sh.tree.mem
    → sh.pos ≡ 2
    → sh.tree.mem a.line ≡ b'l'
    → sh.tree.mem (a.line + 1) ≡ b's'
    → IsDirectory sh.tree sh.tree.cwd names inos
    → (sh' : Shell) × (kbd_interrupt_handler (suc fuel) enter_key a sh
        ≡ some (
          enter,
          listing (first_names (entries_in (sh.tree.inodes.size sh.tree.cwd)) names),
          sh',
        ))
      × (sh'.pos ≡ 0)
      × (sh'.tree.inodes ≡ sh.tree.inodes)
      × IsDirectory sh'.tree sh.tree.cwd names inos
enter-ls fuel a sh names inos many p count l s d =
    let t : Tree = sh.tree in
    let ended : Memory = put (u32 (a.line + sh.pos)) 0 t.mem in
    let typed : HasText ended a.line word_ls = (
      ground (arith, l, p.in_reach),
      (λ e. absurd (omega (arith, e))),
      (ground (arith, s, p.in_reach), (λ e. absurd (omega (arith, e))), ground (arith, p.in_reach)),
    ) in
    let (mem, parsed, cmd_text, all) =
      parse_cmd-one_word fuel a.line a.cmd a.arg ended word_ls (omega arith) typed
        (ground (arith, typed.0))
        ((λ e. absurd (omega (arith, e))), ((λ e. absurd (omega (arith, e))), tt))
        (inr p.cmd_behind) in
    let there : HasText mem a.ls_text word_ls =
      HasText-shift t.mem mem a.ls_text a.ls_text word_ls
        (λ i h. all (a.ls_text + i) ∙ ground (arith, p.ls_behind, p.cmd_behind, p.in_reach, count))
        p.ls_there in
    let same = strcmp-same (suc fuel) a.cmd a.ls_text mem word_ls (omega arith) cmd_text there in
    let d' : IsDirectory (record t { mem = mem }) t.cwd names inos = record {
      small = d.small;
      on_first = d.on_first;
      resident = d.resident;
      entries = d.entries;
    } in
    let (t', listed, inodes, still) =
      ls-names fuel a.locals.de names inos (record t { mem = mem }) many d' in
    (
      record { pos = 0; tree = t' },
      handler-far (suc fuel) a sh _ t' (omega (arith, count)) (omega (arith, count))
          (run_line-far (suc fuel) a (record t { mem = ended }) t' mem _ parsed same listed),
      refl,
      inodes,
      still,
    )

-- A key of a letter, with the line's end in reach.
handler-letter :
    (fuel key c : ℕ) (a : Places) (sh : Shell)
    → press a.line key (record { pos = sh.pos; mem = sh.tree.mem })
      ≡ (show c, record { pos = u32 (sh.pos + 1); mem = put (u32 (a.line + sh.pos)) c sh.tree.mem })
    → kbd_interrupt_handler fuel key a sh
      ≡ some (
        show c,
        quiet,
        record {
          pos = u32 (sh.pos + 1);
          tree = record sh.tree { mem = put (u32 (a.line + sh.pos)) c sh.tree.mem };
        },
      )
unfolding kbd_interrupt_handler run_entered
handler-letter fuel key c a sh pressed = ap (λ r. run_entered fuel sh.pos a r.0 r.1 sh.tree) pressed

press-l :
    (line pos : ℕ) (mem : Memory)
    → press line 0x26 (record { pos = pos; mem = mem })
      ≡ (show b'l', record { pos = u32 (pos + 1); mem = put (u32 (line + pos)) b'l' mem })
unfolding press keymap
press-l line pos mem = refl

press-s :
    (line pos : ℕ) (mem : Memory)
    → press line 0x1f (record { pos = pos; mem = mem })
      ≡ (show b's', record { pos = u32 (pos + 1); mem = put (u32 (line + pos)) b's' mem })
unfolding press keymap
press-s line pos mem = refl

-- The keys l, s and Enter on an empty line, with `line` in front of `cmd` and that in front of the
-- text "ls", and the current directory in one block: the letters are shown, the names of the entries
-- are printed in order, the line is empty again, and no inode and no entry has changed.
pub typing-ls :
    (fuel : ℕ) (a : Places) (sh : Shell) (names : ℕ → List ℕ) (inos : ℕ → ℕ)
    → namelen ≤ fuel
    → ArePlaced a sh.tree.mem
    → sh.pos ≡ 0
    → IsDirectory sh.tree sh.tree.cwd names inos
    → (sh1 : Shell) × (sh2 : Shell) × (sh3 : Shell) × (kbd_interrupt_handler (suc fuel) 0x26 a sh
        ≡ some (show b'l', quiet, sh1))
      × (kbd_interrupt_handler (suc fuel) 0x1f a sh1 ≡ some (show b's', quiet, sh2))
      × (kbd_interrupt_handler (suc fuel) enter_key a sh2
          ≡ some (
            enter,
            listing (first_names (entries_in (sh.tree.inodes.size sh.tree.cwd)) names),
            sh3,
          ))
      × (sh3.pos ≡ 0)
      × (sh3.tree.inodes ≡ sh.tree.inodes)
      × IsDirectory sh3.tree sh.tree.cwd names inos
typing-ls fuel a sh names inos many p empty d =
    let m1 : Memory = put (u32 (a.line + sh.pos)) b'l' sh.tree.mem in
    let sh1 : Shell = record { pos = u32 (sh.pos + 1); tree = record sh.tree { mem = m1 } } in
    let m2 : Memory = put (u32 (a.line + sh1.pos)) b's' m1 in
    let sh2 : Shell = record { pos = u32 (sh1.pos + 1); tree = record sh.tree { mem = m2 } } in
    let placed : ArePlaced a m2 = record {
      ls_there =
          HasText-put (u32 (a.line + sh1.pos)) b's' m1 a.ls_text word_ls
            (HasText-put (u32 (a.line + sh.pos)) b'l' sh.tree.mem a.ls_text word_ls p.ls_there
              (inl (omega (arith, p.cmd_behind, p.ls_behind, p.in_reach, empty))))
            (inl (omega (arith, p.cmd_behind, p.ls_behind, p.in_reach, empty)));
      cmd_behind = p.cmd_behind;
      ls_behind = p.ls_behind;
      in_reach = p.in_reach;
    } in
    let d2 : IsDirectory sh2.tree sh.tree.cwd names inos = record {
      small = d.small;
      on_first = d.on_first;
      resident = d.resident;
      entries = d.entries;
    } in
    let (sh3, ran, zero, inodes, still) =
      enter-ls fuel a sh2 names inos many placed (omega (arith, empty))
        (ground (arith, empty, p.in_reach)) (ground (arith, empty, p.in_reach)) d2 in
    (
      sh1,
      sh2,
      sh3,
      handler-letter (suc fuel) 0x26 b'l' a sh (press-l a.line sh.pos sh.tree.mem),
      handler-letter (suc fuel) 0x1f b's' a sh1 (press-s a.line sh1.pos m1),
      ran,
      zero,
      inodes,
      still,
    )
