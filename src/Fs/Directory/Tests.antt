-- ===== src/Fs/Directory/Tests.antt =====
-- A directory "a" in the current directory, with the file "c" in it: the nodes 5, 6 and 7 of the
-- cache of inodes, and the blocks 23 and 24. The path "a/c/" is at 50.
use orcas.Base.{
  true, ℕ, zero, suc, ◌+◌, ◌*◌, ◌<◌, ◌==◌, ◌≡◌, ◌≢◌, if◌then◌else◌, refl, arith, some, [], ◌∷◌,
}
use orcas.Util.{put}
use orcas.Fs.Cache.{Cache}
use orcas.Fs.Inodes.{Inodes}
use orcas.Fs.Inodes.Lookup.{counted, get_cached_inode-counted}
use orcas.Fs.Directory.{Tree, Frame, namei}
use orcas.Fs.Directory.Entries.{EntryAt}
use orcas.Fs.Directory.Walk.{IsDirectory}
use orcas.Fs.Directory.Nested.{AreNames, IsOnly, namei-nested}

abbrev two_blocks : Cache
two_blocks = record {
  lru_prev = λ _. 0;
  lru_next = λ _. 0;
  hash_prev = λ _. 0;
  hash_next = λ q. if q == 152 then 1 else if q == 153 then 2 else 0;
  device = λ _. 0;
  block = λ p. p + 22;
  flags = λ _. 2;
  lru_cnt = λ _. 0;
  buf = λ p i.
      if i == 0
      then (if p == 1 then 7 else 9)
      else if i == 4
      then (if p == 1 then b'a' else b'c')
      else 0;
}

abbrev three_inodes : Inodes
three_inodes = record {
  lru_prev = λ _. 0;
  lru_next = λ _. 0;
  hash_prev = λ _. 0;
  hash_next = λ q. if q == 136 then 6 else if q == 138 then 7 else 0;
  size = λ p. if p == 7 then 0 else 104;
  ino = λ p. if p == 6 then 7 else if p == 7 then 9 else 0;
  device = λ _. 0;
  access = λ _. 0;
  type = λ p. if p == 7 then 1 else 5;
  flag = λ _. 0;
  nlink = λ _. 0;
}

abbrev nested : Tree
nested = record {
  inodes = three_inodes;
  block = λ p _. p + 18;
  store = record {
    cache = two_blocks;
    disk = record {
      lba0 = 0;
      lba8 = 0;
      lba16 = 0;
      select = 0;
      command = 0;
      sectors = λ _ _. [];
      asks = true;
      floating = [];
    };
    answers = [];
  };
  mem = put 50 b'a' (put 51 b'/' (put 52 b'c' (put 53 b'/' (λ _. 0))));
  cwd = 5;
  root = 5;
  tbl = record {
    max_fd = 0;
    bitmap = [];
    fds = λ _. record { type = 0; off = 0; flag = 0; ind = 0 };
  };
}

abbrev frame : Frame
frame = record {
  de = 300;
  terms = 500;
  sb = record {
    size = 0;
    device = 0;
    n_log_block = 0;
    n_inode_block = 0;
    n_data_block = 0;
    log_start = 0;
    inode_start = 0;
    bitmap_start = 0;
    data_start = 0;
  };
}

-- One entry, and nothing behind it.
abbrev only : {A : Type 0} → A → A → ℕ → A
only first none_there k = if k == 0 then first else none_there

outer-EntryAt :
    (k : ℕ) → k < 5 → EntryAt (two_blocks.buf 1) (0 + 104 * k) (only 7 0 k) (only (b'a' ∷ []) [] k)
outer-EntryAt zero h = record {
  named = (refl, (λ e. absurd (omega (arith, e))), refl);
  short = omega arith;
  numbered = refl;
}
outer-EntryAt (suc k) h = record {
  named = ground arith;
  short = ground arith;
  numbered = ground arith;
}

inner-EntryAt :
    (k : ℕ) → k < 5 → EntryAt (two_blocks.buf 2) (0 + 104 * k) (only 9 0 k) (only (b'c' ∷ []) [] k)
inner-EntryAt zero h = record {
  named = (refl, (λ e. absurd (omega (arith, e))), refl);
  short = omega arith;
  numbered = refl;
}
inner-EntryAt (suc k) h = record {
  named = ground arith;
  short = ground arith;
  numbered = ground arith;
}

outer-IsDirectory : IsDirectory nested 5 (only (b'a' ∷ []) []) (only 7 0)
outer-IsDirectory = record {
  small = omega arith;
  on_first = refl;
  resident = record {
    not_null = λ e. absurd (omega (arith, e));
    its_device = refl;
    its_block = refl;
  };
  entries = record { entry = outer-EntryAt };
}

inner-IsDirectory :
    IsDirectory
      (record nested { inodes = counted 6 three_inodes })
      6
      (only (b'c' ∷ []) [])
      (only 9 0)
inner-IsDirectory = record {
  small = omega arith;
  on_first = refl;
  resident = record {
    not_null = λ e. absurd (omega (arith, e));
    its_device = refl;
    its_block = refl;
  };
  entries = record { entry = inner-EntryAt };
}

alone : (c i : ℕ) → i ≢ 0 → only (c ∷ []) [] i ≢ c ∷ []
alone c zero ne e = ne refl
alone c (suc i) ne e = ground (arith, e)

a-IsOnly :
    IsOnly 5 0 6 101
      (b'a' ∷ [])
      (only (b'a' ∷ []) [])
      (only 7 0)
      three_inodes
      (counted 6 three_inodes)
a-IsOnly = record {
  begins = omega arith;
  inside = omega arith;
  named = refl;
  alone = λ i p ne. alone b'a' i ne;
  known = get_cached_inode-counted 100 7 6 three_inodes refl (λ e. absurd (omega (arith, e))) refl;
  typed = λ e. absurd (omega (arith, e));
}

c-IsOnly :
    IsOnly 6 0 7 101
      (b'c' ∷ [])
      (only (b'c' ∷ []) [])
      (only 9 0)
      (counted 6 three_inodes)
      (counted 7 (counted 6 three_inodes))
c-IsOnly = record {
  begins = omega arith;
  inside = omega arith;
  named = refl;
  alone = λ i p ne. alone b'c' i ne;
  known =
      get_cached_inode-counted 100 9 7 (counted 6 three_inodes) refl
        (λ e. absurd (omega (arith, e))) refl;
  typed = λ e. absurd (omega (arith, e));
}

ac-AreNames : AreNames 50 b'a' [] (b'c' ∷ []) frame nested.mem
ac-AreNames = record {
  text = (
    refl,
    (λ e. absurd (omega (arith, e))),
    (
      refl,
      (λ e. absurd (omega (arith, e))),
      (refl, (λ e. absurd (omega (arith, e))), (refl, (λ e. absurd (omega (arith, e))), refl)),
    ),
  );
  lacks = ((λ e. absurd (omega (arith, e))), tt);
  lacks_too = ((λ e. absurd (omega (arith, e))), tt);
  short = omega arith;
  short_too = omega arith;
  below = omega arith;
  behind = omega arith;
}

namei-nested_example :
    (t' : Tree) × (namei 101 50 frame nested ≡ some (7, t'))
    × (t'.inodes ≡ counted 7 (counted 6 three_inodes))
    × (t'.cwd ≡ 5)
namei-nested_example =
    namei-nested 100 50 b'a' 0 0 6 7 [] (b'c' ∷ []) (only (b'a' ∷ []) []) (only (b'c' ∷ []) [])
      (only 7 0) (only 9 0) frame nested (counted 6 three_inodes)
      (counted 7 (counted 6 three_inodes)) (omega arith) ac-AreNames outer-IsDirectory a-IsOnly
      inner-IsDirectory c-IsOnly
