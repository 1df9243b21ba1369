-- ===== src/Fs/Transfer/Tests.antt =====
-- A file of five bytes on a disk of ten data blocks, all of them in the cache with the superblock
-- in buffer 11 and the bitmap in buffer 12; the local of `allocData` is node 300.
use orcas.Base.{
  true, ℕ, ◌+◌, ◌-◌, ◌/◌, ◌≤◌, ◌<◌, ◌==◌, ◌&&◌, ◌≡◌, ltb, leb, if◌then◌else◌, refl, arith, some, [],
  ◌++◌, take, drop,
}
use orcas.Util.{Memory, minus_one}
use orcas.Fs.{OpenFile, close}
use orcas.Fs.Super.{layout, to_buf}
use orcas.Fs.Data.Warm.{super_of, IsWarm}
use orcas.Fs.Cache.{Cache}
use orcas.Fs.Cache.Disk.{bytes, IsCached}
use orcas.Fs.Transfer.{Inode, Files, bsize, read, write}
use orcas.Fs.Transfer.Alloc.{Owned, free_from}
use orcas.Fs.Transfer.Bytes.{n_data_block, bitmap, contents, IsStored}
use orcas.Fs.Transfer.Split.{write-split}
use orcas.Fs.Transfer.Contract.{
  write-appends, read-slices, write-IsStored, write-fills, read-write, close-refuses,
}

abbrev warm : Cache
warm = record {
  lru_prev = λ _. 0;
  lru_next = λ _. 0;
  hash_prev = λ _. 0;
  hash_next = λ q.
      if leb 152 q && ltb q 162
      then q - 151
      else if q == 130
      then 11
      else if q == 150
      then 12
      else 0;
  device = λ _. 0;
  block = λ p. if p == 11 then 1 else if p == 12 then 21 else if p == 300 then 5 else p + 22;
  flags = λ _. 2;
  lru_cnt = λ _. 0;
  buf = λ p i.
      if p == 11 then to_buf (layout 7) i else if p == 12 then (if i == 0 then 1 else 0) else p + i;
}

abbrev five : Inode
five = record { size = 5; block = λ _. 23 }

-- Descriptor 3 is open at the start of the file.
abbrev disk_of_ten : Files
disk_of_ten = record {
  tbl = record {
    max_fd = 3;
    bitmap = [];
    fds = λ fd. record { type = 0; off = 0; flag = 0; ind = if fd == 3 then 9 else 0 };
  };
  inode = λ _. five;
  store = record {
    cache = warm;
    disk = record {
      lba0 = 0;
      lba8 = 0;
      lba16 = 0;
      select = 0;
      command = 0;
      sectors = λ _ _. [];
      asks = true;
      floating = [];
    };
    answers = [];
  };
  stray = 300;
  sb = layout 0;
  mem = λ a. a + a;
}

abbrev at_end : Files
at_end = record disk_of_ten {
  tbl = record disk_of_ten.tbl {
    fds = λ fd. record { type = 0; off = 5; flag = 0; ind = if fd == 3 then 9 else 0 };
  };
}

warm_super : super_of warm ≡ layout 7
unfolding super_of
warm_super = refl

abbrev first_taken : Memory
first_taken i = if i == 0 then 1 else 0

one_block : Owned 10 23 (λ _. 23) 1 first_taken
one_block = record {
  from = λ k p. omega arith;
  upto = λ k p. omega arith;
  taken = λ k p. λ e. absurd (omega (arith, e));
  distinct = λ j k p q e. omega arith;
}

data-IsCached : (b : ℕ) → 23 ≤ b → b < 33 → IsCached b warm
data-IsCached b p q = record {
  not_null = ground arith;
  its_device = refl;
  its_block = ground arith;
}

warm-IsWarm : IsWarm 300 warm
warm-IsWarm = record {
  super_cached = record { not_null = omega arith; its_device = refl; its_block = refl };
  bitmap_cached =
      rw warm_super (record { not_null = omega arith; its_device = refl; its_block = refl });
  apart = rw warm_super (omega arith);
  outside = omega arith;
  alone = refl;
}

tbl-IsStored : (tbl : OpenFile) → IsStored (record disk_of_ten { tbl = tbl }) 9
unfolding super_of
tbl-IsStored tbl = record {
  few = omega arith;
  fits = omega arith;
  super_before = omega arith;
  bitmap_before = omega arith;
  warm = warm-IsWarm;
  owned = one_block;
  resident = λ b p q. data-IsCached b p q;
}

disk-IsStored : IsStored disk_of_ten 9
disk-IsStored = tbl-IsStored disk_of_ten.tbl

at_end-IsStored : IsStored at_end 9
at_end-IsStored = tbl-IsStored at_end.tbl

nine_free : free_from (n_data_block disk_of_ten) 0 (bitmap disk_of_ten) ≡ 9
unfolding free_from super_of
nine_free = refl

write-appends_example :
    (f' : Files) × (write 1 3 100 700 disk_of_ten ≡ some (700, f'))
    × (contents (f'.inode 9) f'.store.cache ≡ contents five warm ++ bytes 700 100 disk_of_ten.mem)
write-appends_example =
    write-appends 0 3 100 700 disk_of_ten (omega arith) disk-IsStored (omega arith)
      (omega (arith, nine_free))

read-slices_example :
    (f' : Files) × (read 1 3 100 4 disk_of_ten ≡ some (4, f'))
    × (bytes 4 100 f'.mem ≡ take 4 (drop 0 (contents five warm)))
    × ((f'.tbl.fds 3).off ≡ 4)
    × (contents (f'.inode 9) f'.store.cache ≡ contents five warm)
read-slices_example =
    read-slices 0 3 100 4 disk_of_ten (omega arith) disk-IsStored (omega arith) (omega arith)

write-IsStored_example :
    (f' : Files) × (write 1 3 100 700 disk_of_ten ≡ some (700, f')) × IsStored f' 9
write-IsStored_example =
    write-IsStored 0 3 100 700 disk_of_ten (omega arith) disk-IsStored (omega arith)
      (omega (arith, nine_free)) (omega arith)

write-fills_example :
    (f' : Files) × (write 1 3 100 507 disk_of_ten ≡ some (507, f'))
    × (bitmap f' ≡ bitmap disk_of_ten)
    × ((f'.inode 9).block ≡ five.block)
    × ((f'.inode 9).size / bsize ≡ 5 / bsize + 1)
write-fills_example =
    write-fills 0 3 100 507 disk_of_ten (omega arith) disk-IsStored (omega arith) refl

read-write_example :
    (f1 : Files) × (f2 : Files) × (write 1 3 100 700 at_end ≡ some (700, f1))
    × (read 1 3 5000 700 f1 ≡ some (700, f2))
    × (bytes 700 5000 f2.mem ≡ bytes 700 100 at_end.mem)
read-write_example =
    read-write 0 3 100 700 5000 at_end (omega arith) at_end-IsStored refl (omega arith)
      (omega (arith, nine_free))

close-refuses_test :
    let shut = record disk_of_ten { tbl = close 3 disk_of_ten.tbl } in
    (read 1 3 100 4 shut ≡ some (minus_one, shut)) × (write 1 3 100 4 shut ≡ some (minus_one, shut))
close-refuses_test = close-refuses 1 3 100 4 disk_of_ten

write-split_example :
    (f1 : Files) × (f2 : Files) × (f3 : Files) × (write 1 3 100 600 disk_of_ten ≡ some (600, f1))
    × (write 1 3 700 700 f1 ≡ some (700, f2))
    × (write 1 3 100 1300 disk_of_ten ≡ some (1300, f3))
    × (contents (f2.inode 9) f2.store.cache ≡ contents (f3.inode 9) f3.store.cache)
write-split_example =
    write-split 0 3 100 600 700 disk_of_ten (omega arith) disk-IsStored (omega arith)
      (omega (arith, nine_free)) (omega arith)
