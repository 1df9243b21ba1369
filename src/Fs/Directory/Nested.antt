-- ===== src/Fs/Directory/Nested.antt =====
-- `namei` of a path of two names, through a directory in the current directory.
use orcas.Base.{
  ℕ, suc, ◌+◌, ◌*◌, ◌%◌, ◌≤◌, ◌<◌, ◌≡◌, ◌≢◌, ◌⊎◌, ◌∙◌, ◌==◌, arith, List, [], ◌∷◌, ◌++◌, length,
  false, some, refl, inl, inr,
}
use orcas.Util.{Memory, split, cell}
use orcas.Util.Text.{HasText, HasText-shift}
use orcas.Util.Split.Terms.{Lacks, split-two}
use orcas.Fs.Cache.{take_hit}
use orcas.Fs.Cache.Disk.{buffer_of}
use orcas.Fs.Transfer.{bsize}
use orcas.Fs.Inodes.{Inodes, get_cached_inode, i_notcache}
use orcas.Fs.Directory.{Tree, Frame, sizeof_dentry, namelen, walk_term, walk_terms, namei}
use orcas.Fs.Directory.Entries.{Sought}
use orcas.Fs.Directory.Walk.{IsDirectory, block_taken, walk_rest-finds, walk_term-rest}

namei-both :
    (fuel path q r : ℕ) (fr : Frame) (t t1 t2 : Tree) (m : Memory)
    → (t.mem path == b'/') ≡ false
    → split fuel path b'/' fr.terms t.mem ≡ some (2, m)
    → walk_term fuel 0 fr t.cwd (record t { mem = m }) ≡ some (q, t1)
    → walk_term fuel 1 fr q t1 ≡ some (r, t2)
    → namei fuel path fr t ≡ some (r, t2)
unfolding namei walk_terms
namei-both fuel path q r fr t t1 t2 m rel e w w' = rw (e, rel, namei) (rw (w, w'))

-- A path of two names of less than 20 bytes below the array of terms, behind `de`.
pub record AreNames (path x : ℕ) (s u : List ℕ) (fr : Frame) (mem : Memory) : Type 0 where
  pub text : HasText mem path (x ∷ s ++ b'/' ∷ (u ++ b'/' ∷ []))
  pub lacks : Lacks b'/' (x ∷ s)
  pub lacks_too : Lacks b'/' u
  pub short : length (x ∷ s) < 20
  pub short_too : length u < 20
  pub below : path + length (x ∷ s ++ b'/' ∷ (u ++ b'/' ∷ [])) < fr.terms
  pub behind : fr.de + sizeof_dentry ≤ fr.terms

-- One entry of a directory, alone under its name, with its inode in the cache: the node, and the
-- cache after the lookup.
pub record IsOnly (dir j q fuel : ℕ) (s : List ℕ) (names : ℕ → List ℕ) (inos : ℕ → ℕ)
    (c c' : Inodes) : Type 0 where
  pub begins : j < 5
  pub inside : sizeof_dentry * j < c.size dir
  pub named : names j ≡ s
  pub alone : (i : ℕ) → i < 5 → i ≢ j → names i ≢ s
  pub known : get_cached_inode fuel (inos j) c ≡ some (q, c')
  pub typed : c'.type q ≢ i_notcache

one_term :
    (fuel i dir j q : ℕ) (s : List ℕ) (names : ℕ → List ℕ) (inos : ℕ → ℕ) (fr : Frame) (t : Tree)
    (c : Inodes)
    → namelen ≤ fuel
    → IsDirectory t dir names inos
    → Sought fr.de (cell fr.terms i 0) s t.mem
    → IsOnly dir j q (suc fuel) s names inos t.inodes c
    → (m : Memory) × (walk_term (suc fuel) i fr dir t
        ≡ some (q, record (block_taken dir t) { mem = m; inodes = c }))
      × ((a : ℕ) → (a < fr.de) ⊎ (fr.de + sizeof_dentry ≤ a) → m a ≡ t.mem a)
unfolding take_hit
one_term fuel i dir j q s names inos fr t c many d sought only =
    let p = buffer_of (t.block dir 0) t.store.cache in
    let inside : 0 + sizeof_dentry * j < t.inodes.size dir % bsize =
      omega (arith, d.small, only.inside) in
    let (m, run, outside) =
      walk_rest-finds 5 (suc fuel) 0 p (cell fr.terms i 0) j q names inos s fr dir
        (block_taken dir t) c (omega arith) sought d.entries only.begins inside only.named
        only.alone only.known only.typed in
    (m, walk_term-rest fuel i names inos fr dir t d ∙ run, outside)

-- `namei` of the name of a directory in the current directory and that of an entry in it, each of
-- less than 20 bytes, the first not empty, with '/' behind it, in front of the array of terms, where
-- both directories lie in one block, no other entry that begins in these has either name, and both
-- inodes are in the cache with types that are not 0, returns the inode of the inner entry.
pub namei-nested :
    (fuel path x j k q r : ℕ) (s u : List ℕ) (names inner : ℕ → List ℕ) (inos inner_inos : ℕ → ℕ)
    (fr : Frame) (t : Tree) (c c' : Inodes)
    → namelen ≤ fuel
    → AreNames path x s u fr t.mem
    → IsDirectory t t.cwd names inos
    → IsOnly t.cwd j q (suc fuel) (x ∷ s) names inos t.inodes c
    → IsDirectory (record t { inodes = c }) q inner inner_inos
    → IsOnly q k r (suc fuel) u inner inner_inos c c'
    → (t' : Tree) × (namei (suc fuel) path fr t ≡ some (r, t'))
      × (t'.inodes ≡ c')
      × (t'.cwd ≡ t.cwd)
unfolding take_hit
namei-nested fuel path x j k q r s u names inner inos inner_inos fr t c c' many h d only e
      only_too =
    let (m, run, first, second, kept) =
      split-two (suc fuel) path b'/' fr.terms x t.mem s u (omega (arith, h.short, h.short_too))
        h.text h.lacks h.lacks_too h.short h.below in
    let t0 : Tree = record t { mem = m } in
    let d0 : IsDirectory t0 t.cwd names inos = record {
      small = d.small;
      on_first = d.on_first;
      resident = d.resident;
      entries = d.entries;
    } in
    let (m1, run1, outside) =
      one_term fuel 0 t.cwd j q (x ∷ s) names inos fr t0 c many d0
        (record { text = first; apart = inl (omega (arith, h.behind)) }) only in
    let t1 : Tree = record (block_taken t.cwd t0) { mem = m1; inodes = c } in
    let d1 : IsDirectory t1 q inner inner_inos = record {
      small = e.small;
      on_first = e.on_first;
      resident = record {
        not_null = e.resident.not_null;
        its_device = e.resident.its_device;
        its_block = e.resident.its_block;
      };
      entries = e.entries;
    } in
    let still : HasText m1 (cell fr.terms 1 0) u =
      HasText-shift m m1 (cell fr.terms 1 0) (cell fr.terms 1 0) u
        (λ i p. outside (cell fr.terms 1 0 + i) (inr (omega (arith, h.behind)))) second in
    let (m2, run2, outside2) =
      one_term fuel 1 q k r u inner inner_inos fr t1 c' many d1
        (record { text = still; apart = inl (omega (arith, h.behind)) }) only_too in
    (
      _,
      namei-both (suc fuel) path q r fr t t1 _ m (ground (arith, h.text.0, h.lacks.0)) run run1
          run2,
      refl,
      refl,
    )
