-- ===== src/Fs/Calls/Sample.antt =====
-- A sample for the tests. The current directory lies in block 23 of drive 0, in the cache: its only
-- entry is "a" with the number 7. The inode 8 is the node 6 of the cache of inodes; in memory there
-- are the texts "a", "x", "b/" and "z/", and an entry "b" with the number 8.
use orcas.Base.{
  ◌≢◌, true, ℕ, zero, suc, ◌+◌, ◌*◌, ◌<◌, ◌==◌, if◌then◌else◌, refl, arith, List, [], ◌∷◌,
}
use orcas.Util.{Memory, put}
use orcas.Fs.Cache.{Cache}
use orcas.Fs.Inodes.{Inodes}
use orcas.Fs.Directory.{Tree, Frame}
use orcas.Fs.Directory.Entries.{EntryAt}
use orcas.Fs.Directory.Walk.{IsDirectory}
use orcas.Fs.Allocator.{Locals}

abbrev pub block_23 : Cache
block_23 = record {
  lru_prev = λ _. 0;
  lru_next = λ _. 0;
  hash_prev = λ _. 0;
  hash_next = λ q. if q == 152 then 1 else 0;
  device = λ _. 0;
  block = λ _. 23;
  flags = λ _. 2;
  lru_cnt = λ _. 0;
  buf = λ _ i. if i == 0 then 7 else if i == 4 then b'a' else 0;
}

-- The node 5 is the directory.
abbrev pub two_inodes : Inodes
two_inodes = record {
  lru_prev = λ _. 0;
  lru_next = λ _. 0;
  hash_prev = λ _. 0;
  hash_next = λ q. if q == 137 then 6 else 0;
  size = λ p. if p == 5 then 104 else 0;
  ino = λ p. if p == 6 then 8 else 0;
  device = λ _. 0;
  access = λ _. 0;
  type = λ p. if p == 5 then 5 else 1;
  flag = λ _. 0;
  nlink = λ _. 0;
}

abbrev pub words : Memory
words = put 10 b'a' (
    put 20 b'x'
      (put 30 b'b' (put 31 b'/' (put 40 b'z' (put 41 b'/' (put 700 8 (put 704 b'b' (λ _. 0))))))))

abbrev pub small_tree : Tree
small_tree = record {
  inodes = two_inodes;
  block = λ _ _. 23;
  store = record {
    cache = block_23;
    disk = record {
      lba0 = 0;
      lba8 = 0;
      lba16 = 0;
      select = 0;
      command = 0;
      sectors = λ _ _. [];
      asks = true;
      floating = [];
    };
    answers = [];
  };
  mem = words;
  cwd = 5;
  root = 5;
  tbl = record {
    max_fd = 0;
    bitmap = 0 ∷ 0 ∷ 0 ∷ 0 ∷ [];
    fds = λ _. record { type = 0; off = 0; flag = 0; ind = 0 };
  };
}

abbrev pub frame : Frame
frame = record {
  de = 300;
  terms = 500;
  sb = record {
    size = 0;
    device = 0;
    n_log_block = 0;
    n_inode_block = 0;
    n_data_block = 0;
    log_start = 0;
    inode_start = 0;
    bitmap_start = 0;
    data_start = 0;
  };
}

abbrev pub locals : Locals
locals = record {
  de = 900;
  pname = 60;
  slash = 70;
  cwd_name = 80;
  frame = frame;
  stray = 0;
  stray_device = 0;
  stray_block = 0;
  stray_buf = λ _. 0;
}

abbrev pub only_a : ℕ → List ℕ
only_a k = if k == 0 then b'a' ∷ [] else []

abbrev pub only_7 : ℕ → ℕ
only_7 k = if k == 0 then 7 else 0

pub a-EntryAt : (k : ℕ) → k < 5 → EntryAt (block_23.buf 1) (0 + 104 * k) (only_7 k) (only_a k)
a-EntryAt zero h = record {
  named = (refl, (λ e. absurd (omega (arith, e))), refl);
  short = omega arith;
  numbered = refl;
}
a-EntryAt (suc k) h = record { named = ground arith; short = ground arith; numbered = ground arith }

pub tree-IsDirectory : IsDirectory small_tree 5 only_a only_7
tree-IsDirectory = record {
  small = omega arith;
  on_first = refl;
  resident = record {
    not_null = λ e. absurd (omega (arith, e));
    its_device = refl;
    its_block = refl;
  };
  entries = record { entry = a-EntryAt };
}

-- A name of one byte other than "a" is that of no entry.
pub not_listed : (c i : ℕ) → c ≢ b'a' → only_a i ≢ c ∷ []
not_listed c zero ne e = ground (arith, ne, e)
not_listed c (suc i) ne e = ground (arith, e)
