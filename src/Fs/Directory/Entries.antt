-- ===== src/Fs/Directory/Entries.antt =====
-- The entries of a block of a directory, and one of them in the local `de`.
use mathlib.Core.Path.{subst}
use native.Mathlib.Decide.{ℕ_discrete}
use orcas.Base.{
  ℕ, suc, ◌+◌, ◌-◌, ◌*◌, ◌^◌, ◌≤◌, ◌<◌, ◌≡◌, ◌⊎◌, ◌∙◌, ◌==◌, if◌then◌else◌, arith, List, length, ap,
  ap₂,
}
use orcas.Util.{Memory}
use orcas.Util.Text.{HasText, HasText-shift}
use orcas.Fs.Cache.Disk.{copy, copy-copies}
use orcas.Fs.Super.{word_at}
use orcas.Fs.Directory.{sizeof_dentry, name_of, namelen}

pub copy-inside :
    (dst src cnt i : ℕ) (from to : Memory)
    → i < cnt
    → copy dst src cnt from to (dst + i) ≡ from (src + i)
copy-inside dst src cnt i from to h =
    let e : src + (dst + i - dst) ≡ src + i = omega arith in
    ground (arith, copy-copies dst src cnt from to (dst + i), ap from e)

pub copy-outside :
    (dst src cnt a : ℕ) (from to : Memory)
    → (a < dst) ⊎ (dst + cnt ≤ a)
    → copy dst src cnt from to a ≡ to a
copy-outside dst src cnt a from to h = ground (arith, copy-copies dst src cnt from to a)

-- A text clear of the copied bytes stays, and one among them is copied.
pub HasText-beside :
    (dst src cnt p : ℕ) (from to : Memory) (s : List ℕ)
    → (dst + cnt ≤ p) ⊎ (p + length s < dst)
    → HasText to p s
    → HasText (copy dst src cnt from to) p s
HasText-beside dst src cnt p from to s apart =
    HasText-shift to (copy dst src cnt from to) p p s
      (λ i h. copy-outside dst src cnt (p + i) from to (omega arith))

pub HasText-copied :
    (dst src cnt d : ℕ) (from to : Memory) (s : List ℕ)
    → d + length s < cnt
    → HasText from (src + d) s
    → HasText (copy dst src cnt from to) (dst + d) s
HasText-copied dst src cnt d from to s fits =
    HasText-shift from (copy dst src cnt from to) (src + d) (dst + d) s (λ i h.
      ap (copy dst src cnt from to) (omega arith)
      ∙ copy-inside dst src cnt (d + i) from to (omega arith)
      ∙ ap from (omega arith))

pub word_at-moved :
    (from to : Memory) (p q : ℕ)
    → ((i : ℕ) → i < 4 → to (q + i) ≡ from (p + i))
    → word_at to q ≡ word_at from p
word_at-moved from to p q same =
    let b0 : to q ≡ from p = ap to (omega arith) ∙ same 0 (omega arith) ∙ ap from (omega arith) in
    ap₂ (λ x y. x + y)
      (ap₂ (λ x y. x + y) (ap₂ (λ x y. x + y) b0 (ap (λ x. x * 256) (same 1 (omega arith))))
        (ap (λ x. x * 256 ^ 2) (same 2 (omega arith))))
      (ap (λ x. x * 256 ^ 3) (same 3 (omega arith)))

-- The entry in `de` after its copy.
pub word_at-copied :
    (dst src : ℕ) (from to : Memory)
    → word_at (copy dst src sizeof_dentry from to) dst ≡ word_at from src
word_at-copied dst src from to =
    word_at-moved from (copy dst src sizeof_dentry from to) src dst
      (λ i h. copy-inside dst src sizeof_dentry i from to (omega arith))

-- What the memory of `namei` holds while it looks for one name: the name is clear of `de`.
pub record Sought (de term : ℕ) (s : List ℕ) (mem : Memory) : Type 0 where
  pub text : HasText mem term s
  pub apart : (de + sizeof_dentry ≤ term) ⊎ (term + length s < de)

-- An entry in the buffer `db` at `off`, of that number and name.
pub record EntryAt (buf : Memory) (off ino : ℕ) (name : List ℕ) : Type 0 where
  pub named : HasText buf (name_of off) name
  pub short : length name < namelen
  pub numbered : word_at buf off ≡ ino

-- `n` entries from `off` on.
pub record AreEntries (buf : Memory) (off n : ℕ) (names : ℕ → List ℕ) (inos : ℕ → ℕ) : Type 0 where
  pub entry : (i : ℕ) → i < n → EntryAt buf (off + sizeof_dentry * i) (inos i) (names i)

pub first_entry :
    {buf : Memory} {off n : ℕ} {names : ℕ → List ℕ} {inos : ℕ → ℕ}
    → AreEntries buf off (suc n) names inos
    → EntryAt buf off (inos 0) (names 0)
first_entry {buf} {off} {n} {names} {inos} h =
    subst (λ o. EntryAt buf o (inos 0) (names 0)) (omega arith) (h.entry 0 (omega arith))

pub later_entries :
    {buf : Memory} {off n : ℕ} {names : ℕ → List ℕ} {inos : ℕ → ℕ}
    → AreEntries buf off (suc n) names inos
    → AreEntries buf (off + sizeof_dentry) n (λ i. names (suc i)) (λ i. inos (suc i))
later_entries {buf} {off} {n} {names} {inos} h = record {
  entry = λ i p.
      subst (λ o. EntryAt buf o (inos (suc i)) (names (suc i))) (omega arith)
        (h.entry (suc i) (omega arith));
}

pub Sought-copy :
    (off term de : ℕ) (s : List ℕ) (from mem : Memory)
    → Sought de term s mem
    → Sought de term s (copy de off sizeof_dentry from mem)
Sought-copy off term de s from mem h = record {
  text = HasText-beside de off sizeof_dentry term from mem s h.apart h.text;
  apart = h.apart;
}

pub name-copied :
    (de off ino : ℕ) (name : List ℕ) (from mem : Memory)
    → EntryAt from off ino name
    → HasText (copy de off sizeof_dentry from mem) (name_of de) name
name-copied de off ino name from mem e =
    HasText-copied de off sizeof_dentry 4 from mem name (omega (arith, e.short)) e.named

pub EntryAt-moved :
    (from to : Memory) (p q ino : ℕ) (s : List ℕ)
    → ((i : ℕ) → i < sizeof_dentry → to (q + i) ≡ from (p + i))
    → EntryAt from p ino s
    → EntryAt to q ino s
EntryAt-moved from to p q ino s same e = record {
  named =
      HasText-shift from to (name_of p) (name_of q) s
        (λ i h. ap to (omega arith) ∙ same (4 + i) (omega (arith, e.short)) ∙ ap from (omega arith))
        e.named;
  short = e.short;
  numbered = word_at-moved from to p q (λ i h. same i (omega arith)) ∙ e.numbered;
}

-- A function with another value at `n`.
abbrev pub replaced {ℓ} : {A : Type ℓ} → (n : ℕ) → A → (ℕ → A) → ℕ → A
replaced n v f k = if k == n then v else f k

EntryAt-as :
    (buf : Memory) (off : ℕ) {v v' : ℕ} {w w' : List ℕ}
    → v ≡ v'
    → w ≡ w'
    → EntryAt buf off v w
    → EntryAt buf off v' w'
EntryAt-as buf off {v} {v'} {w} {w'} e f h =
    subst (λ y. EntryAt buf off v' y) f (subst (λ x. EntryAt buf off x w) e h)

-- One entry of a block is another now.
pub AreEntries-replaced :
    (buf buf' : Memory) (n ino : ℕ) (s : List ℕ) (names : ℕ → List ℕ) (inos : ℕ → ℕ)
    → EntryAt buf' (sizeof_dentry * n) ino s
    → ((a : ℕ) → (a < sizeof_dentry * n) ⊎ (sizeof_dentry * n + sizeof_dentry ≤ a) → buf' a ≡ buf a)
    → AreEntries buf 0 5 names inos
    → AreEntries buf' 0 5 (replaced n s names) (replaced n ino inos)
AreEntries-replaced buf buf' n ino s names inos new kept es = record {
  entry = λ k h. elim (ℕ_discrete k n) [
    | yes e ↦
        EntryAt-moved buf' buf' (sizeof_dentry * n) (0 + sizeof_dentry * k) (replaced n ino inos k)
          (replaced n s names k) (λ i p. ap buf' (omega arith))
          (EntryAt-as buf' (sizeof_dentry * n) (ground arith) (ground arith) new)
    | no ne ↦
        EntryAt-moved buf buf' (0 + sizeof_dentry * k) (0 + sizeof_dentry * k)
          (replaced n ino inos k) (replaced n s names k)
          (λ i p. kept (0 + sizeof_dentry * k + i) (omega arith))
          (EntryAt-as buf (0 + sizeof_dentry * k) (ground arith) (ground arith) (es.entry k h))
  ];
}
