-- ===== src/Fs/Calls/Absolute.antt =====
-- Where `creat` puts the entry of an absolute path.
use orcas.Base.{
  ℕ, ◌+◌, ◌≤◌, ◌<◌, ◌≡◌, ◌⊎◌, ◌∙◌, ◌==◌, arith, List, [], ◌∷◌, length, some, true, false, refl,
}
use native.Mathlib.Decide.{ℕ_discrete}
use orcas.Util.{Memory, put, strncpy}
use orcas.Util.Text.{HasText, HasText-put, strlen-length}
use orcas.Fs.Path.{get_file_name, get_file_name-empty, last_slash}
use orcas.Fs.Directory.{Tree, sizeof_dentry, name_of, namelen, namei}
use orcas.Fs.Directory.Plain.{namei-plain}
use orcas.Fs.Allocator.{Locals}
use orcas.Fs.Calls.{name_entry, place_entry}
use orcas.Fs.Calls.Make.{name_entry-far, strncpy-outside}

-- The text behind the last '/' of a text, that '/' included, or `v` where it has none.
last_slash-HasText :
    (p q stop : ℕ) (mem : Memory) (s v : List ℕ)
    → HasText mem p s
    → p + length s ≡ stop
    → HasText mem q v
    → q + length v ≡ stop
    → q ≤ p
    → (u : List ℕ) × HasText mem (last_slash p q s) u
      × (last_slash p q s + length u ≡ stop)
      × (q ≤ last_slash p q s)
last_slash-HasText p q stop mem [] v t e tv ev h = (v, tv, ev, omega arith)
last_slash-HasText p q stop mem (c ∷ s) v t e tv ev h = elim (ℕ_discrete c b'/') [
  | yes slash ↦
      let (u, text, ends, from) =
        last_slash-HasText (p + 1) p stop mem s (c ∷ s) t.2 (omega arith) t e (omega arith) in
      rw slash (u, text, ends, omega arith)
  | no other ↦
      let (u, text, ends, from) =
        last_slash-HasText (p + 1) q stop mem s v t.2 (omega arith) tv ev (omega arith) in
      let plain : (c == b'/') ≡ false = ground (arith, other) in rw plain (u, text, ends, from)
]

place_entry-far :
    (fuel path : ℕ) (l : Locals) (t t' : Tree) (q ind : ℕ) (m0 m1 : Memory)
    → (t.mem path == b'/') ≡ true
    → get_file_name fuel path l.pname t.mem ≡ some (q, m0)
    → name_entry fuel l.de q m0 ≡ some m1
    → namei fuel l.pname l.frame (record t { mem = m1 }) ≡ some (ind, t')
    → place_entry fuel path l t ≡ some (ind, t')
unfolding place_entry
place_entry-far fuel path l t t' q ind m0 m1 abs e f g = rw (abs, e, f, g, place_entry) refl

-- For an absolute path of at most 100 bytes, which stands clear of `pname` and of the entry, where
-- `pname` is clear of the entry too and below the array of terms of `namei`: `creat` writes its
-- entry to the current directory, whatever directories the path names.
pub place_entry-absolute :
    (fuel path : ℕ) (l : Locals) (t : Tree) (s : List ℕ)
    → length s + 1 < fuel
    → length s < namelen
    → HasText t.mem path (b'/' ∷ s)
    → (l.pname < path) ⊎ (path + length s + 1 < l.pname)
    → (path + length s + 1 < l.de) ⊎ (l.de + sizeof_dentry ≤ path)
    → (l.pname < l.de) ⊎ (l.de + sizeof_dentry ≤ l.pname)
    → l.pname < l.frame.terms
    → (t' : Tree) × (place_entry fuel path l t ≡ some (t.cwd, t'))
place_entry-absolute fuel path l t s h short text apart entry_apart pname_apart below =
    let all : List ℕ = b'/' ∷ s in
    let m0 : Memory = put l.pname 0 t.mem in
    let text0 : HasText m0 path all = HasText-put l.pname 0 t.mem path all text (omega arith) in
    let q : ℕ = last_slash path path all in
    let (u, name, ends, from) =
      last_slash-HasText path path (path + length all) m0 all all text0 refl text0 refl
        (omega arith) in
    let m1 : Memory = (strncpy (name_of l.de) q (length u) m0).1 in
    let named : name_entry fuel l.de q m0 ≡ some m1 =
      name_entry-far fuel l.de q (length u) m0
        (strlen-length fuel q m0 u (omega (arith, ends, from)) name) in
    let kept : m1 l.pname ≡ 0 =
      strncpy-outside (name_of l.de) q m0 u name (omega (arith, ends, from)) l.pname
        (omega (arith, ends, from))
      ∙ ground arith in
    let found =
      namei-plain fuel l.pname l.frame (record t { mem = m1 }) [] (omega arith) kept tt
        (omega arith) in
    (
      _,
      place_entry-far fuel path l t (record t { mem = found.0 }) q t.cwd m0 m1
          (ground (arith, text.0))
          (get_file_name-empty fuel path l.pname t.mem all (omega arith) text (omega arith)) named
          found.1,
    )
