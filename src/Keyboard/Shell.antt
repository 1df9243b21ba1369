-- ===== src/Keyboard/Shell.antt =====
-- `kbdInterruptHandler` with the commands that a line runs, on the tree of directories. The prompt
-- and the newlines are left out.
pub mod Enter
mod Tests
use orcas.Base.{
  ℕ, suc, ◌+◌, ◌≤◌, ◌<◌, ◌^◌, ◌≡◌, ◌≢◌, ◌⊎◌, ◌∙◌, ◌==◌, ◌&&◌, ltb, if◌then◌else◌, arith, Option,
  some, List, [], ◌∷◌, length, refl, inl, inr, true, false, u32,
}
use orcas.Util.{Memory, put}
use orcas.Keyboard.{
  Line, Echo, nothing, show, erase, enter, press, keymap, is_typed, parse_cmd, Command, list,
  change_dir, make_dir, not_found, command,
}
use orcas.Fs.Cache.Disk.{◌>>=◌}
use orcas.Fs.Directory.{Tree, ls, text_at}
use orcas.Fs.Allocator.{Locals}
use orcas.Fs.Calls.{cd, mk}

-- `pos`, and the tree with the memory that `line`, `cmd` and `arg` stand in.
pub record Shell : Type 0 where
  pub pos : ℕ
  pub tree : Tree

-- The addresses of the three arrays and of the texts "ls", "cd" and "mkdir".
pub record Places : Type 0 where
  pub line : ℕ
  pub cmd : ℕ
  pub arg : ℕ
  pub ls_text : ℕ
  pub cd_text : ℕ
  pub mkdir_text : ℕ
  pub locals : Locals

-- What a command prints.
pub data Output : Type 0 where
  quiet : Output
  listing : List (List ℕ) → Output
  complaint : List ℕ → Output

pub run_command : (fuel : ℕ) → Command → Places → Tree → Option (Output × Tree)
run_command fuel list a t = do
  r ← ls fuel a.locals.de t
  let (result, names, t1) = r
  some (listing names, t1)
run_command fuel change_dir a t = do r ← cd fuel a.arg a.locals t; some (quiet, r.1)
run_command fuel make_dir a t = do r ← mk fuel a.arg a.locals t; some (quiet, r.1)
run_command fuel not_found a t = do text ← text_at fuel a.cmd t.mem; some (complaint text, t)

-- The line that has been entered.
pub run_line : (fuel : ℕ) → Places → Tree → Option (Output × Tree)
run_line fuel a t = do
  mem ← parse_cmd fuel a.line a.cmd a.arg t.mem
  which ← command fuel a.cmd a.ls_text a.cd_text a.mkdir_text mem
  run_command fuel which a (record t { mem = mem })

-- Behind what `press` does: a line that is not empty is run. `pos` is that before the key.
pub run_entered : (fuel pos : ℕ) → Places → Echo → Line → Tree → Option (Echo × Output × Shell)
run_entered fuel pos a echo l tree =
    let t = record tree { mem = l.mem } in
    let waits = some (echo, quiet, record { pos = l.pos; tree = t }) in
    let ran = do r ← run_line fuel a t; some (echo, r.0, record { pos = l.pos; tree = r.1 })
    in elim echo [
      | enter ↦ if ltb 0 pos && ltb pos (2 ^ 31) then ran else waits
      | nothing ↦ waits
      | show c ↦ waits
      | erase ↦ waits
    ]

-- For the byte `key` from `getc`: what it shows, what a command prints, and the state.
pub kbd_interrupt_handler : (fuel key : ℕ) → Places → Shell → Option (Echo × Output × Shell)
kbd_interrupt_handler fuel key a sh =
    let r = press a.line key (record { pos = sh.pos; mem = sh.tree.mem }) in
    run_entered fuel sh.pos a r.0 r.1 sh.tree
