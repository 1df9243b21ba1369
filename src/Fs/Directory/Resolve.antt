-- ===== src/Fs/Directory/Resolve.antt =====
-- `namei` of a path of one name with '/' behind it, in the current directory.
use mathlib.Core.Path.{subst}
use orcas.Base.{
  ℕ, suc, ◌+◌, ◌*◌, ◌%◌, ◌≤◌, ◌<◌, ◌≡◌, ◌≢◌, ◌⊎◌, ◌∙◌, ◌==◌, arith, List, [], ◌∷◌, ◌++◌, length,
  false, some, refl,
}
use orcas.Util.{Memory, split, cell}
use orcas.Util.Text.{HasText}
use orcas.Util.Split.Terms.{Lacks, split-term}
use orcas.Fs.Cache.{take_hit}
use orcas.Fs.Cache.Disk.{buffer_of}
use orcas.Fs.Transfer.{bsize}
use orcas.Fs.Inodes.{Inodes, get_cached_inode, i_notcache}
use orcas.Fs.Directory.{
  Tree, Frame, sizeof_dentry, namelen, walk_term, walk_terms, walk_rest, namei,
}
use orcas.Fs.Directory.Entries.{Sought}
use orcas.Fs.Directory.Walk.{IsDirectory, block_taken, walk_rest-finds, walk_term-rest}

namei-one :
    (fuel path q : ℕ) (fr : Frame) (t t' : Tree) (m : Memory)
    → (t.mem path == b'/') ≡ false
    → split fuel path b'/' fr.terms t.mem ≡ some (1, m)
    → walk_term fuel 0 fr t.cwd (record t { mem = m }) ≡ some (q, t')
    → namei fuel path fr t ≡ some (q, t')
unfolding namei walk_terms
namei-one fuel path q fr t t' m rel e w = rw (e, rel, namei) (rw w)

-- A path of one name, which stands below the array of terms and clear of `de`.
pub record IsName (path x : ℕ) (s : List ℕ) (fr : Frame) (mem : Memory) : Type 0 where
  pub text : HasText mem path (x ∷ s ++ b'/' ∷ [])
  pub lacks : Lacks b'/' (x ∷ s)
  pub short : length (x ∷ s) < namelen
  pub below : path + length (x ∷ s) + 1 < fr.terms
  pub apart : (fr.de + sizeof_dentry ≤ fr.terms) ⊎ (fr.terms + length (x ∷ s) < fr.de)

-- Up to the walk over the entries of the current directory.
prepared :
    (fuel path x : ℕ) (s : List ℕ) (names : ℕ → List ℕ) (inos : ℕ → ℕ) (fr : Frame) (t : Tree)
    → namelen ≤ fuel
    → IsDirectory t t.cwd names inos
    → IsName path x s fr t.mem
    → (m : Memory) × Sought fr.de (cell fr.terms 0 0) (x ∷ s) m
      × ((q : ℕ) (t' : Tree)
          → walk_rest 5
              (suc fuel)
              0
              (buffer_of (t.block t.cwd 0) t.store.cache)
              (cell fr.terms 0 0)
              fr
              t.cwd
              (block_taken t.cwd (record t { mem = m }))
            ≡ some (q, t')
          → namei (suc fuel) path fr t ≡ some (q, t'))
prepared fuel path x s names inos fr t many d h =
    let (m, run, text, kept) =
      split-term (suc fuel) path b'/' fr.terms x t.mem s (omega (arith, h.short)) h.text h.lacks
        h.below in
    let rel : (t.mem path == b'/') ≡ false = ground (arith, h.text.0, h.lacks.0) in
    let start : fr.terms ≡ cell fr.terms 0 0 = omega arith in
    let d' : IsDirectory (record t { mem = m }) t.cwd names inos = record {
      small = d.small;
      on_first = d.on_first;
      resident = d.resident;
      entries = d.entries;
    } in
    (
      m,
      record {
        text = subst (λ a. HasText m a (x ∷ s)) start text;
        apart =
            subst (λ a. (fr.de + sizeof_dentry ≤ a) ⊎ (a + length (x ∷ s) < fr.de)) start h.apart;
      },
      λ q t' w.
          namei-one (suc fuel) path q fr t t' m rel run
            (walk_term-rest fuel 0 names inos fr t.cwd (record t { mem = m }) d' ∙ w),
    )

-- `namei` of the name of one entry of the current directory, with '/' behind it, where no other
-- entry that begins in the block has that name and the inode is cached with a type that is not 0,
-- returns that inode, with the cache of inodes as after its lookup.
pub namei-finds :
    (fuel path x j q : ℕ) (s : List ℕ) (names : ℕ → List ℕ) (inos : ℕ → ℕ) (fr : Frame) (t : Tree)
    (c : Inodes)
    → namelen ≤ fuel
    → IsDirectory t t.cwd names inos
    → IsName path x s fr t.mem
    → j < 5
    → sizeof_dentry * j < t.inodes.size t.cwd
    → names j ≡ x ∷ s
    → ((i : ℕ) → i < 5 → i ≢ j → names i ≢ x ∷ s)
    → get_cached_inode (suc fuel) (inos j) t.inodes ≡ some (q, c)
    → c.type q ≢ i_notcache
    → (t' : Tree) × (namei (suc fuel) path fr t ≡ some (q, t'))
      × (t'.inodes ≡ c)
      × (t'.block ≡ t.block)
      × (t'.cwd ≡ t.cwd)
unfolding take_hit
namei-finds fuel path x j q s names inos fr t c many d h hj within e other found typed =
    let (m, sought, done) = prepared fuel path x s names inos fr t many d h in
    let p = buffer_of (t.block t.cwd 0) t.store.cache in
    let inside : 0 + sizeof_dentry * j < t.inodes.size t.cwd % bsize =
      omega (arith, d.small, within) in
    let (m', run, outside) =
      walk_rest-finds 5 (suc fuel) 0 p (cell fr.terms 0 0) j q names inos (x ∷ s) fr t.cwd
        (block_taken t.cwd (record t { mem = m })) c (omega arith) sought d.entries hj inside e
        other found typed in
    (_, done q _ run, refl, refl, refl)
