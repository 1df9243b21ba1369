-- ===== src/Fs/Tests.antt =====
-- Bitmaps and descriptors at concrete values: the bitmap at 1000, ten entries.
use orcas.Base.{ℕ, ◌≡◌, ◌≢◌, ◌⊎◌, ◌/◌, ◌%◌, ◌^◌, zero, suc, ◌<◌, refl, arith, [], ◌∷◌}
use orcas.Util.{Memory, minus_one}
use orcas.Fs.{
  find_zero, alloc_ino, free_inode, alloc_data, free_data, OpenFile, open_file, creat_file, close,
  find_fd, eof,
}
use orcas.Fs.Bitmap.{
  Gives, Refuses, alloc_ino-first, alloc_ino-distinct, free_inode-alloc_ino, alloc_data-free_data,
}
use orcas.Fs.Descriptor.{find_fd-last}

abbrev empty : Memory
empty _ = 0

alloc_ino-first_test :
    Gives 10 1000 empty (alloc_ino 10 1000 empty).0 (alloc_ino 10 1000 empty).1
    ⊎ Refuses 10 1000 empty (alloc_ino 10 1000 empty).0 (alloc_ino 10 1000 empty).1
alloc_ino-first_test = alloc_ino-first 10 1000 empty (omega arith)

alloc_ino-distinct_test : ◌≢◌ {A = ℕ} 0 1
unfolding alloc_ino find_zero
alloc_ino-distinct_test = alloc_ino-distinct 10 1000 0 1 empty (omega arith) (omega arith) refl refl

free_inode-alloc_ino_test : free_inode 10 1000 0 (alloc_ino 10 1000 empty).1 ≡ (0, empty)
unfolding alloc_ino find_zero
free_inode-alloc_ino_test = free_inode-alloc_ino 10 1000 0 empty (omega arith) (omega arith) refl

-- The numbers of `diskLayoutInit`.
alloc_data-free_data_test :
    free_data 10 1000 (alloc_data 10 23 1000 empty).0 (alloc_data 10 23 1000 empty).1
    ≡ (minus_one, (alloc_data 10 23 1000 empty).1)
alloc_data-free_data_test = alloc_data-free_data 10 23 1000 empty (omega arith) (omega arith)

find_fd-last_test : find_fd (0 ∷ 0 ∷ 0 ∷ 7 ∷ []) ≡ 15
find_fd-last_test =
    find_fd-last 0 0 0 7 3
      (record { from = omega arith; upto = omega arith; clear = refl; before = λ k p q. below k q })
  where
    below : (k : ℕ) → k < 3 → (7 / 2 ^ k) % 2 ≡ 1
    below zero q = refl
    below (suc zero) q = refl
    below (suc (suc zero)) q = refl
    below (suc (suc (suc k))) q = absurd (omega arith)

abbrev no_files : OpenFile
no_files = record {
  max_fd = 0;
  bitmap = 0 ∷ 0 ∷ 0 ∷ 0 ∷ [];
  fds = λ _. record { type = 0; off = 0; flag = 0; ind = 0 };
}

open_twice : (open_file 5 1 1 no_files).0 ≡ (open_file 6 1 1 (open_file 5 1 1 no_files).1).0
unfolding open_file
open_twice = refl

created : (creat_file 5 1 no_files).0 ≡ 0
unfolding creat_file
created = refl

closed : (close 12 no_files).bitmap ≡ no_files.bitmap
unfolding close
closed = refl

at_end : eof (λ _. 0) 3 no_files ≡ 1
unfolding eof
at_end = refl
