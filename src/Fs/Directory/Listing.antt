-- ===== src/Fs/Directory/Listing.antt =====
-- What `ls` prints of a directory of one block.
use orcas.Base.{
  ℕ, zero, suc, ◌+◌, ◌-◌, ◌/◌, ◌%◌, ◌≤◌, ◌<◌, ◌≡◌, ◌∙◌, refl, ap, ◌==◌, arith, List, [], ◌∷◌,
  length, some, false,
}
use orcas.Util.{Memory}
use orcas.Util.Text.{HasText}
use orcas.Fs.Cache.{null, take_hit}
use orcas.Fs.Cache.Disk.{Store, copy, buffer_of, block_read, block_read-hit}
use orcas.Fs.Transfer.{bsize}
use orcas.Fs.Directory.{
  Tree, sizeof_dentry, name_of, namelen, text_at, list_entries, list_blocks, ls,
}
use orcas.Fs.Directory.Entries.{AreEntries, first_entry, later_entries, name-copied}
use orcas.Fs.Directory.Walk.{IsDirectory, block_taken}

text_at-text :
    (fuel p : ℕ) (mem : Memory) (s : List ℕ)
    → length s < fuel
    → HasText mem p s
    → text_at fuel p mem ≡ some s
unfolding text_at
text_at-text zero p mem s h t = absurd (omega arith)
text_at-text (suc fuel) p mem [] h t = ground arith
text_at-text (suc fuel) p mem (c ∷ s) h t = ground (arith, text_at-text fuel (p + 1) mem s)

-- The first `n` names.
abbrev pub first_names : (n : ℕ) → (ℕ → List ℕ) → List (List ℕ)
first_names zero names = []
first_names (suc n) names = names 0 ∷ first_names n (λ i. names (suc i))

abbrev copied_to : (de db off : ℕ) → Tree → Tree
copied_to de db off t = record t { mem = copy de off sizeof_dentry (t.store.cache.buf db) t.mem }

list_entries-step :
    (left fuel off db de : ℕ) (name : List ℕ) (rest : List (List ℕ)) (t t' : Tree)
    → text_at fuel (name_of de) (copied_to de db off t).mem ≡ some name
    → list_entries left fuel (off + sizeof_dentry) db de (copied_to de db off t) ≡ some (rest, t')
    → list_entries (suc left) fuel off db de t ≡ some (name ∷ rest, t')
unfolding list_entries
list_entries-step left fuel off db de name rest t t' e f = rw (e, list_entries) (rw f)

list_entries-names :
    (left n fuel off db de : ℕ) (names : ℕ → List ℕ) (inos : ℕ → ℕ) (t : Tree)
    → namelen ≤ fuel
    → left ≤ n
    → AreEntries (t.store.cache.buf db) off n names inos
    → (mem' : Memory) × (list_entries left fuel off db de t
        ≡ some (first_names left names, record t { mem = mem' }))
unfolding list_entries
list_entries-names zero n fuel off db de names inos t many few es = (t.mem, refl)
list_entries-names (suc left) zero fuel off db de names inos t many few es = absurd (omega arith)
list_entries-names (suc left) (suc n) fuel off db de names inos t many few es =
    let first = first_entry es in
    let text =
      text_at-text fuel (name_of de) (copied_to de db off t).mem (names 0)
        (omega (arith, first.short))
        (name-copied de off (inos 0) (names 0) (t.store.cache.buf db) t.mem first) in
    let (mem', rest) =
      list_entries-names left n fuel (off + sizeof_dentry) db de (λ i. names (suc i))
        (λ i. inos (suc i)) (copied_to de db off t) many (omega arith) (later_entries es) in
    (mem', list_entries-step left fuel off db de (names 0) _ t _ text rest)

-- The entries that `ls` takes from the last block.
abbrev pub entries_in : (size : ℕ) → ℕ
entries_in size = (size % bsize + sizeof_dentry - 1) / sizeof_dentry

ls-far :
    (fuel de p : ℕ) (names : List (List ℕ)) (t t2 : Tree) (s1 : Store)
    → t.inodes.size t.cwd / bsize ≡ 0
    → block_read fuel (t.inodes.device t.cwd) (t.block t.cwd 0) t.store ≡ some (p, s1)
    → (p == null) ≡ false
    → list_entries (entries_in (t.inodes.size t.cwd)) fuel 0 p de (record t { store = s1 })
      ≡ some (names, t2)
    → ls fuel de t ≡ some (0, names, t2)
unfolding ls list_blocks
ls-far fuel de p names t t2 s1 small read ne listed = rw (small, read, ne, listed, ls) refl

-- `ls` of a directory of one block prints the names of its entries in order, those that end past
-- its size included, and changes no inode and no entry.
pub ls-names :
    (fuel de : ℕ) (names : ℕ → List ℕ) (inos : ℕ → ℕ) (t : Tree)
    → namelen ≤ fuel
    → IsDirectory t t.cwd names inos
    → (t' : Tree) × (ls (suc fuel) de t
        ≡ some (0, first_names (entries_in (t.inodes.size t.cwd)) names, t'))
      × (t'.inodes ≡ t.inodes)
      × IsDirectory t' t.cwd names inos
unfolding take_hit
ls-names fuel de names inos t many d =
    let p : ℕ = buffer_of (t.block t.cwd 0) t.store.cache in
    let t1 : Tree = block_taken t.cwd t in
    let read : block_read (suc fuel) (t.inodes.device t.cwd) (t.block t.cwd 0) t.store
        ≡ some (p, t1.store) =
      ap (λ v. block_read (suc fuel) v (t.block t.cwd 0) t.store) d.on_first
      ∙ block_read-hit fuel (t.block t.cwd 0) t.store d.resident in
    let (mem', listed) =
      list_entries-names (entries_in (t.inodes.size t.cwd)) 5 (suc fuel) 0 p de names inos t1
        (omega arith) (omega (arith, d.small)) d.entries in
    (
      _,
      ls-far (suc fuel) de p (first_names (entries_in (t.inodes.size t.cwd)) names) t _ t1.store
          (omega (arith, d.small)) read (ground (arith, d.resident.not_null)) listed,
      refl,
      record {
        small = d.small;
        on_first = d.on_first;
        resident = record {
          not_null = d.resident.not_null;
          its_device = d.resident.its_device;
          its_block = d.resident.its_block;
        };
        entries = d.entries;
      },
    )
