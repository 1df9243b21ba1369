-- ===== src/Keyboard/Parse.antt =====
-- How `parseCmd` takes the line apart.
use orcas.Base.{
  ℕ, zero, suc, ◌+◌, ◌-◌, ◌≤◌, ◌<◌, ◌≡◌, ◌≢◌, ◌⊎◌, ◌∙◌, arith, List, [], ◌∷◌, length, false, some,
}
use orcas.Util.{Memory, put}
use orcas.Util.Text.{HasText, HasText-put}
use orcas.Util.Concat.{copied, HasText-moved}
use orcas.Keyboard.{is_blank, skip_blanks, copy_loop, parse_cmd}

-- None of the bytes is a space.
abbrev NoSpace : List ℕ → Type 0
NoSpace [] = Unit {0}
NoSpace (c ∷ w) = (c ≢ 32) × NoSpace w

copy_loop-word :
    (fuel q p arg : ℕ) (mem : Memory) (w : List ℕ)
    → length w < fuel
    → HasText mem q w
    → NoSpace w
    → (p + length w < q) ⊎ (q + length w < p)
    → (mem' : Memory) × (copy_loop fuel q p arg mem ≡ some mem')
      × ((a : ℕ) → mem' a ≡ put (p + length w) 0 (copied p q (length w) mem) a)
unfolding copy_loop
copy_loop-word zero q p arg mem w h t ns apart = absurd (omega arith)
copy_loop-word (suc fuel) q p arg mem [] h t ns apart =
    (put p 0 mem, ground arith, λ a. ground arith)
copy_loop-word (suc fuel) q p arg mem (c ∷ w) h t ns apart =
    let t' : HasText (put p c mem) (q + 1) w = HasText-put p c mem (q + 1) w t.2 (omega arith) in
    let (mem', run, all) =
      copy_loop-word fuel (q + 1) (p + 1) arg (put p c mem) w (omega arith) t' ns.1 (omega arith) in
    (mem', ground arith, λ a. ground (arith, all a))

parse_cmd-step :
    (fuel line cmd arg : ℕ) (mem : Memory)
    → is_blank (mem line) ≡ false
    → parse_cmd (suc fuel) line cmd arg mem ≡ copy_loop (suc fuel) line cmd arg mem
unfolding parse_cmd skip_blanks
parse_cmd-step fuel line cmd arg mem e = rw (e, parse_cmd)

-- A line of one word, without blanks in front, is copied to `cmd`, and no other byte changes: `arg`
-- keeps what an earlier command left there.
pub parse_cmd-one_word :
    (fuel line cmd arg : ℕ) (mem : Memory) (w : List ℕ)
    → length w ≤ fuel
    → HasText mem line w
    → is_blank (mem line) ≡ false
    → NoSpace w
    → (cmd + length w < line) ⊎ (line + length w < cmd)
    → (mem' : Memory) × (parse_cmd (suc fuel) line cmd arg mem ≡ some mem')
      × HasText mem' cmd w
      × ((a : ℕ) → mem' a ≡ put (cmd + length w) 0 (copied cmd line (length w) mem) a)
parse_cmd-one_word fuel line cmd arg mem w h t front ns apart =
    let (mem', run, all) = copy_loop-word (suc fuel) line cmd arg mem w (omega arith) t ns apart in
    (
      mem',
      parse_cmd-step fuel line cmd arg mem front ∙ run,
      HasText-moved mem mem' cmd line w t
          (λ i lt. let e : cmd + i - cmd ≡ i = omega arith in ground (arith, all (cmd + i), e))
          (ground (arith, all (cmd + length w))),
      all,
    )
