-- ===== src/Fs/Calls/Remove/Clear.antt =====
-- The search of `rm` through the entries of one block.
use mathlib.Core.Path.{subst}
use orcas.Base.{ℕ, zero, suc, ◌+◌, ◌*◌, ◌≤◌, ◌<◌, ◌≡◌, ◌≢◌, ◌∙◌, refl, ap, arith, List, some}
use orcas.Util.{Memory, strcmp}
use orcas.Util.Compare.{strcmp-same, strcmp-differs}
use orcas.Fs.Cache.Disk.{copy}
use orcas.Fs.Super.{word_at}
use orcas.Fs.Directory.{Tree, sizeof_dentry, name_of, namelen}
use orcas.Fs.Directory.Entries.{
  Sought, Sought-copy, EntryAt, AreEntries, first_entry, later_entries, name-copied, word_at-copied,
}
use orcas.Fs.Data.{with_buf}
use orcas.Fs.Allocator.{fill}
use orcas.Fs.Calls.Remove.{found, passed, clear_entry}

abbrev pub copied_to : (db off de : ℕ) → Tree → Tree
copied_to db off de t = record t { mem = copy de off sizeof_dentry (t.store.cache.buf db) t.mem }

-- The buffer without the entry at `off`.
abbrev pub cleared : (db off : ℕ) → Tree → Tree
cleared db off t = record t {
  store = with_buf db (fill off sizeof_dentry 0 (t.store.cache.buf db)) t.store;
}

clear_entry-next :
    (left fuel off db name de r : ℕ) (t : Tree)
    → strcmp fuel (name_of de) name (copied_to db off de t).mem ≡ some r
    → r ≢ 0
    → clear_entry (suc left) fuel off db name de t
      ≡ clear_entry left fuel (off + sizeof_dentry) db name de (copied_to db off de t)
unfolding clear_entry
clear_entry-next left fuel off db name de r t e ne = rw (e, clear_entry) (ground arith)

clear_entry-here :
    (left fuel off db name de : ℕ) (t : Tree)
    → strcmp fuel (name_of de) name (copied_to db off de t).mem ≡ some 0
    → clear_entry (suc left) fuel off db name de t
      ≡ some (found, cleared db off (copied_to db off de t))
unfolding clear_entry
clear_entry-here left fuel off db name de t e = rw (e, clear_entry) refl

clear_entry-miss :
    (left fuel off db name de ino : ℕ) (u s : List ℕ) (t : Tree)
    → namelen ≤ fuel
    → Sought de name s t.mem
    → EntryAt (t.store.cache.buf db) off ino u
    → u ≢ s
    → clear_entry (suc left) fuel off db name de t
      ≡ clear_entry left fuel (off + sizeof_dentry) db name de (copied_to db off de t)
clear_entry-miss left fuel off db name de ino u s t many h e ne =
    let buf : Memory = t.store.cache.buf db in
    let (r, run, differs) =
      strcmp-differs fuel (name_of de) name (copied_to db off de t).mem u s (omega (arith, e.short))
        (name-copied de off ino u buf t.mem e) (Sought-copy off name de s buf t.mem h).text ne in
    clear_entry-next left fuel off db name de r t run differs

clear_entry-hit :
    (left fuel off db name de ino : ℕ) (s : List ℕ) (t : Tree)
    → namelen ≤ fuel
    → Sought de name s t.mem
    → EntryAt (t.store.cache.buf db) off ino s
    → clear_entry (suc left) fuel off db name de t
      ≡ some (found, cleared db off (copied_to db off de t))
clear_entry-hit left fuel off db name de ino s t many h e =
    let buf : Memory = t.store.cache.buf db in
    clear_entry-here left fuel off db name de t (
      strcmp-same fuel (name_of de) name (copied_to db off de t).mem s (omega (arith, e.short))
        (name-copied de off ino s buf t.mem e) (Sought-copy off name de s buf t.mem h).text)

-- No entry of the name: the search passes them all, and the last one stays in `de`.
pub clear_entry-passes :
    (left fuel off db name de : ℕ) (names : ℕ → List ℕ) (inos : ℕ → ℕ) (s : List ℕ) (t : Tree)
    → namelen ≤ fuel
    → Sought de name s t.mem
    → AreEntries (t.store.cache.buf db) off (suc left) names inos
    → ((i : ℕ) → i < suc left → names i ≢ s)
    → (mem' : Memory) × (clear_entry (suc left) fuel off db name de t
        ≡ some (passed, record t { mem = mem' }))
      × (word_at mem' de ≡ inos left)
unfolding clear_entry
clear_entry-passes zero fuel off db name de names inos s t many h es other = (
  _,
  clear_entry-miss 0 fuel off db name de (inos 0) (names 0) s t many h (first_entry es)
      (other 0 (omega arith)),
  word_at-copied de off (t.store.cache.buf db) t.mem ∙ (first_entry es).numbered,
)
clear_entry-passes (suc left) fuel off db name de names inos s t many h es other =
    let (mem', run, last) =
      clear_entry-passes left fuel (off + sizeof_dentry) db name de (λ i. names (suc i))
        (λ i. inos (suc i)) s (copied_to db off de t) many
        (Sought-copy off name de s (t.store.cache.buf db) t.mem h) (later_entries es)
        (λ i p. other (suc i) (omega arith)) in
    (
      mem',
      clear_entry-miss (suc left) fuel off db name de (inos 0) (names 0) s t many h (first_entry es)
            (other 0 (omega arith))
          ∙ run,
      last,
    )

-- The first entry of the name is cleared, and stays in `de`.
pub clear_entry-finds :
    (left fuel off db name de j : ℕ) (names : ℕ → List ℕ) (inos : ℕ → ℕ) (s : List ℕ) (t : Tree)
    → namelen ≤ fuel
    → Sought de name s t.mem
    → AreEntries (t.store.cache.buf db) off left names inos
    → j < left
    → names j ≡ s
    → ((i : ℕ) → i < j → names i ≢ s)
    → (mem' : Memory) × (clear_entry left fuel off db name de t
        ≡ some (found, cleared db (off + sizeof_dentry * j) (record t { mem = mem' })))
      × (word_at mem' de ≡ inos j)
clear_entry-finds zero fuel off db name de j names inos s t many h es hj e other =
    absurd (omega arith)
clear_entry-finds (suc left) fuel off db name de zero names inos s t many h es hj e other =
    let here : off ≡ off + sizeof_dentry * 0 = omega arith in
    let first = subst (λ n. EntryAt (t.store.cache.buf db) off (inos 0) n) e (first_entry es) in
    (
      _,
      clear_entry-hit left fuel off db name de (inos 0) s t many h first
          ∙ ap (λ o. some (found, cleared db o (copied_to db off de t))) here,
      word_at-copied de off (t.store.cache.buf db) t.mem ∙ first.numbered,
    )
clear_entry-finds (suc left) fuel off db name de (suc j) names inos s t many h es hj e other =
    let (mem', run, last) =
      clear_entry-finds left fuel (off + sizeof_dentry) db name de j (λ i. names (suc i))
        (λ i. inos (suc i)) s (copied_to db off de t) many
        (Sought-copy off name de s (t.store.cache.buf db) t.mem h) (later_entries es) (omega arith)
        e (λ i p. other (suc i) (omega arith)) in
    let further : off + sizeof_dentry + sizeof_dentry * j ≡ off + sizeof_dentry * suc j =
      omega arith in
    (
      mem',
      clear_entry-miss left fuel off db name de (inos 0) (names 0) s t many h (first_entry es)
            (other 0 (omega arith))
          ∙ run
          ∙ ap (λ o. some (found, cleared db o (record t { mem = mem' }))) further,
      last,
    )
