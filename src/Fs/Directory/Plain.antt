-- ===== src/Fs/Directory/Plain.antt =====
-- Paths without '/': `split` reports no term for them, so that `namei` never looks into a directory.
use orcas.Base.{ℕ, ◌+◌, ◌<◌, ◌≡◌, ◌==◌, arith, List, [], ◌∷◌, length, some, false}
use orcas.Util.{Memory, split}
use orcas.Util.Text.{HasText}
use orcas.Util.Split.Terms.{Lacks, split-plain}
use orcas.Fs.Directory.{Tree, Frame, namei, walk_terms}

pub is_relative :
    (path : ℕ) (mem : Memory) (s : List ℕ)
    → HasText mem path s
    → Lacks b'/' s
    → (mem path == b'/') ≡ false
is_relative path mem [] h plain = ground arith
is_relative path mem (x ∷ s) h plain = ground arith

namei-far :
    (fuel path : ℕ) (fr : Frame) (t : Tree) (mem' : Memory)
    → (t.mem path == b'/') ≡ false
    → split fuel path b'/' fr.terms t.mem ≡ some (0, mem')
    → namei fuel path fr t ≡ some (t.cwd, record t { mem = mem' })
unfolding namei walk_terms
namei-far fuel path fr t mem' rel e = rw (e, rel, namei)

-- `namei` of a text without '/' that stands below its array of terms returns the current directory,
-- whatever the directory holds, and changes nothing but its array.
pub namei-plain :
    (fuel path : ℕ) (fr : Frame) (t : Tree) (s : List ℕ)
    → length s < fuel
    → HasText t.mem path s
    → Lacks b'/' s
    → path + length s < fr.terms
    → (mem' : Memory) × (namei fuel path fr t ≡ some (t.cwd, record t { mem = mem' }))
      × ((a : ℕ) → a < fr.terms → mem' a ≡ t.mem a)
namei-plain fuel path fr t s h text plain below =
    let (mem', run, kept) =
      split-plain fuel path b'/' fr.terms t.mem s h (λ e. absurd (omega (arith, e))) text plain
        below in
    (mem', namei-far fuel path fr t mem' (is_relative path t.mem s text plain) run, kept)
