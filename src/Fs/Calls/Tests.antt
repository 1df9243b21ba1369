-- ===== src/Fs/Calls/Tests.antt =====
-- The calls on the sample tree.
use orcas.Base.{◌≡◌, refl, arith, some, [], ◌∷◌, inl, inr}
use orcas.Fs.{find_fd}
use orcas.Fs.Cache.Disk.{Store}
use orcas.Fs.Directory.{Tree, ls, namei}
use orcas.Fs.Directory.Entries.{EntryAt, replaced}
use orcas.Fs.Directory.Walk.{IsDirectory}
use orcas.Fs.Directory.Resolve.{IsName}
use orcas.Fs.Directory.Listing.{ls-names}
use orcas.Fs.Calls.{add_entry, open_path}
use orcas.Fs.Calls.Entry.{enlarged, add_entry-IsDirectory}
use orcas.Fs.Calls.Made.{IsKnown, namei-add_entry}
use orcas.Fs.Calls.Names.{open_path-plain}
use orcas.Fs.Calls.Remove.Contract.{IsPlain}
use orcas.Fs.Calls.Sample.{
  two_inodes, words, small_tree, frame, locals, only_a, only_7, not_listed, tree-IsDirectory,
}

b-EntryAt : EntryAt words 700 8 (b'b' ∷ [])
b-EntryAt = record {
  named = (refl, (λ e. absurd (omega (arith, e))), refl);
  short = omega arith;
  numbered = refl;
}

b-IsName : IsName 30 b'b' [] frame words
b-IsName = record {
  text = (refl, (λ e. absurd (omega (arith, e))), (refl, (λ e. absurd (omega (arith, e))), refl));
  lacks = ((λ e. absurd (omega (arith, e))), tt);
  short = omega arith;
  below = omega arith;
  apart = inl (omega arith);
}

eight-IsKnown : IsKnown 8 6 two_inodes
eight-IsKnown = record {
  first = refl;
  not_null = λ e. absurd (omega (arith, e));
  its_ino = refl;
  typed = λ e. absurd (omega (arith, e));
}

x-IsPlain : IsPlain 20 (b'x' ∷ []) 900 words
x-IsPlain = record {
  lacks = ((λ e. absurd (omega (arith, e))), tt);
  sought = record {
    text = (refl, (λ e. absurd (omega (arith, e))), refl);
    apart = inr (omega arith);
  };
}

namei-add_entry_example :
    (t1 : Tree) × (t2 : Tree) × (add_entry 101 5 700 small_tree ≡ some (0, t1))
    × (namei 101 30 frame t1 ≡ some (6, t2))
namei-add_entry_example =
    namei-add_entry 100 30 700 b'b' 1 8 6 [] only_a only_7 frame small_tree (omega arith)
      tree-IsDirectory refl (omega arith) b-EntryAt b-IsName
      (λ i p ne. not_listed b'b' i (λ e. absurd (omega (arith, e)))) eight-IsKnown

add_entry-IsDirectory_example :
    (s2 : Store) × (add_entry 1 5 700 small_tree
      ≡ some (0, record small_tree { inodes = enlarged 5 two_inodes; store = s2 }))
    × IsDirectory
        (record small_tree { inodes = enlarged 5 two_inodes; store = s2 })
        5
        (replaced 1 (b'b' ∷ []) only_a)
        (replaced 1 8 only_7)
    × ((enlarged 5 two_inodes).size 5 ≡ 208)
add_entry-IsDirectory_example =
    add_entry-IsDirectory 0 5 700 1 8 (b'b' ∷ []) only_a only_7 small_tree tree-IsDirectory refl
      (omega arith) b-EntryAt

ls-names_example :
    (t' : Tree) × (ls 101 900 small_tree ≡ some (0, (b'a' ∷ []) ∷ [], t'))
    × (t'.inodes ≡ two_inodes)
    × IsDirectory t' 5 only_a only_7
ls-names_example = ls-names 100 900 only_a only_7 small_tree (omega arith) tree-IsDirectory

open_path-plain_example :
    (t' : Tree) × (open_path 101 20 1 locals small_tree ≡ some (find_fd (0 ∷ 0 ∷ 0 ∷ 0 ∷ []), t'))
    × ((t'.tbl.fds (find_fd (0 ∷ 0 ∷ 0 ∷ 0 ∷ []))).ind ≡ 5)
    × (t'.inodes ≡ two_inodes)
    × (t'.store ≡ small_tree.store)
open_path-plain_example =
    open_path-plain 101 20 1 locals small_tree (b'x' ∷ []) (omega arith) x-IsPlain.sought.text
      x-IsPlain.lacks (omega arith) (λ e. absurd (omega (arith, e)))
