-- ===== src/Fs/Calls/Remove/Tests.antt =====
-- `rm` in the sample directory, with the superblock in buffer 2, the bitmaps in buffers 3 and 4, and
-- the inode 7 in node 4 of the cache of inodes.
use orcas.Base.{◌==◌, ◌≡◌, if◌then◌else◌, refl, arith, [], ◌∷◌, some, inr}
use orcas.Fs.Cache.{Cache}
use orcas.Fs.Super.{layout, to_buf}
use orcas.Fs.Data.Warm.{super_of}
use orcas.Fs.Directory.{Tree}
use orcas.Fs.Directory.Walk.{IsDirectory}
use orcas.Fs.Directory.Entries.{replaced}
use orcas.Fs.Calls.Sample.{
  small_tree, block_23, words, two_inodes, locals, only_a, only_7, not_listed, a-EntryAt,
}
use orcas.Fs.Calls.Remove.{rm}
use orcas.Fs.Calls.Remove.Freed.{IsMapped}
use orcas.Fs.Calls.Remove.Removed.{IsRemoved}
use orcas.Fs.Calls.Remove.Contract.{IsPlain, rm-clears, rm-passes}

abbrev mapped : Cache
mapped = record block_23 {
  hash_next = λ q.
      if q == 152
      then 1
      else if q == 130
      then 2
      else if q == 149
      then 3
      else if q == 150
      then 4
      else 0;
  block = λ p. if p == 2 then 1 else if p == 3 then 20 else if p == 4 then 21 else 23;
  buf = λ p i. if p == 2 then to_buf (layout 7) i else block_23.buf p i;
}

abbrev tree : Tree
tree = record small_tree {
  inodes = record two_inodes {
    hash_next = λ q. if q == 136 then 4 else 0;
    ino = λ p. if p == 4 then 7 else 0;
  };
  store = record small_tree.store { cache = mapped };
}

dir-IsDirectory : IsDirectory tree 5 only_a only_7
dir-IsDirectory = record {
  small = omega arith;
  on_first = refl;
  resident = record { not_null = omega arith; its_device = refl; its_block = refl };
  entries = record { entry = a-EntryAt };
}

seven-IsMapped : IsMapped 7 4 (layout 7) tree
unfolding super_of
seven-IsMapped = record {
  held = refl;
  not_null = omega arith;
  numbered = refl;
  typed = λ e. absurd (omega (arith, e));
  on_first = refl;
  maps = record {
    super_is = refl;
    super_cached = record { not_null = omega arith; its_device = refl; its_block = refl };
    inode_map = record { not_null = omega arith; its_device = refl; its_block = refl };
    data_map = record { not_null = omega arith; its_device = refl; its_block = refl };
  };
  within = omega arith;
  small = omega arith;
  above = λ k p. omega arith;
}

a-IsPlain : IsPlain 10 (b'a' ∷ []) 900 words
a-IsPlain = record {
  lacks = ((λ e. absurd (omega (arith, e))), tt);
  sought = record {
    text = (refl, (λ e. absurd (omega (arith, e))), refl);
    apart = inr (omega arith);
  };
}

x-IsPlain : IsPlain 20 (b'x' ∷ []) 900 words
x-IsPlain = record {
  lacks = ((λ e. absurd (omega (arith, e))), tt);
  sought = record {
    text = (refl, (λ e. absurd (omega (arith, e))), refl);
    apart = inr (omega arith);
  };
}

rm-clears_example :
    (t' : Tree) × (rm 101 10 locals tree ≡ some (0, t'))
    × IsRemoved 7 4 (layout 7) (replaced 0 [] only_a) (replaced 0 0 only_7) tree t'
rm-clears_example =
    rm-clears 100 10 0 4 (layout 7) (b'a' ∷ []) only_a only_7 locals tree (omega arith)
      dir-IsDirectory (omega arith) a-IsPlain refl (λ i p. absurd (omega (arith, p))) seven-IsMapped
      (omega arith) (omega arith) (omega arith)

rm-passes_example :
    (t' : Tree) × (rm 101 20 locals tree ≡ some (0, t'))
    × IsRemoved 7 4 (layout 7) only_a only_7 tree t'
rm-passes_example =
    rm-passes 100 20 0 4 (layout 7) (b'x' ∷ []) only_a only_7 locals tree (omega arith)
      dir-IsDirectory refl x-IsPlain (λ i p. not_listed b'x' i (λ e. absurd (omega (arith, e))))
      seven-IsMapped (omega arith) (omega arith)
