-- ===== src/Memory/Kernel/Maps.antt =====
-- What `kmemInit` leaves behind.
use orcas.Base.{
  ℕ, ◌+◌, ◌-◌, ◌/◌, ◌%◌, ◌^◌, ◌≤◌, ◌<◌, ◌≡◌, refl, ap, ◌&&◌, ltb, leb, if◌then◌else◌, arith, some,
  ◌∙◌,
}
use orcas.Memory.Page.{
  pg_size, kernel_base, kern_size, page_rw, pg_up_bound, pg_up_bound-eq, ptov, ptov-zero, vtop,
}
use orcas.Memory.Machine.{Machine, memset, slot, slot-eq}
use orcas.Memory.Pool.{alloc_page-brk, alloc_page-keeps}
use orcas.Memory.Table.{translate}
use orcas.Memory.Table.Entry.{IsDirectory}
use orcas.Memory.Table.Translate.{translate-absent, translate-cr3}
use orcas.Memory.Range.{range_loop, rangemap}
use orcas.Memory.Range.Mapped.{IsBump, Mapped, range_loop-Mapped, rangemap-loop}
use orcas.Memory.Kernel.{empty_directory, kmem_init}

-- The machine at the call of `rangemap`: the first page past `kernheap` is the empty directory.
module _ (kernheap : ℕ) (m : Machine) where
  abbrev start : ℕ
  start = pg_up_bound kernheap

  abbrev before_range : Machine
  before_range = empty_directory kernheap m

  record IsEmptied : Type 0 where
    kpgdir_start : before_range.kpgdir ≡ start
    kmsize_start : before_range.kmsize ≡ start
    brk_next : before_range.brk ≡ start + 4096
    none_free : before_range.avail ≡ 0
    cleared : (i : ℕ) → i < 1024 → before_range.ram (slot start i) ≡ 0

  module _ (fits : kernheap + 4096 + kern_size + 4096 < 2 ^ 32) where
    empty_directory-IsEmptied : IsEmptied
    unfolding empty_directory memset
    empty_directory-IsEmptied =
        let m0 = record m { avail = 0; brk = start; kmsize = start } in
        record {
          kpgdir_start = (alloc_page-brk m0 refl).0;
          kmsize_start = (alloc_page-keeps m0).0;
          brk_next = omega (arith, alloc_page-brk m0 refl, pg_up_bound-eq kernheap);
          none_free = (alloc_page-brk m0 refl).2;
          cleared = λ i hi.
              ground (arith, alloc_page-brk m0 refl, pg_up_bound-eq kernheap, slot-eq start i);
        }

    -- The empty directory is well formed, and below the break.
    before_range-IsDirectory : IsDirectory start before_range.ram
    before_range-IsDirectory =
        let e = empty_directory-IsEmptied in
        record {
          aligned = omega (arith, pg_up_bound-eq kernheap);
          in_reach = omega (arith, pg_up_bound-eq kernheap);
          words = λ i hi. omega (arith, e.cleared i hi);
          apart = λ i hi odd. absurd (omega (arith, e.cleared i hi));
          distinct = λ i j hi hj odd_i odd_j same. absurd (omega (arith, e.cleared i hi));
        }

    empty_directory-IsBump : IsBump start before_range
    empty_directory-IsBump =
        let e = empty_directory-IsEmptied in
        record {
          none_free = e.none_free;
          aligned = omega (arith, e.brk_next, pg_up_bound-eq kernheap);
          pgd_below = omega (arith, e.brk_next);
          below = λ i hi odd. absurd (omega (arith, e.cleared i hi));
        }

-- The kernel's map: the `kern_size` bytes from `kernel_base` on, onto the memory from 0 on.
pub record KernelMapped (kernheap : ℕ) (m : Machine) : Type 0 where
  pub kpgdir_start : m.kpgdir ≡ pg_up_bound kernheap
  pub kmsize_start : m.kmsize ≡ pg_up_bound kernheap
  pub none_free : m.avail ≡ 0
  pub aligned : m.brk % pg_size ≡ 0
  pub above : m.kpgdir + pg_size ≤ m.brk
  pub bounded : m.brk ≤ m.kpgdir + pg_size + kern_size
  pub loaded : m.cr3 ≡ vtop m.kpgdir
  pub maps :
      (va : ℕ)
      → va < 2 ^ 32
      → translate m.kpgdir va m
        ≡ (if leb kernel_base va && ltb va (kernel_base + kern_size) then va - kernel_base else 0)

module _ (fuel kernheap : ℕ) (m : Machine)
    (fits : kernheap + 4096 + kern_size + 4096 < 2 ^ 32) where
  range_from_start :
      (m' : Machine)
      → range_loop fuel (start kernheap m) 0 kern_size kernel_base page_rw (before_range kernheap m)
        ≡ some m'
      → rangemap fuel
          (before_range kernheap m).kpgdir
          0
          (ptov 0)
          kern_size
          page_rw
          (before_range kernheap m)
        ≡ some m'
  range_from_start m' run =
      let s = empty_directory kernheap m in
      let e = empty_directory-IsEmptied kernheap m fits in
      ap (λ (p : ℕ). rangemap fuel p 0 (ptov 0) kern_size page_rw s) e.kpgdir_start
      ∙ ap (λ (v : ℕ). rangemap fuel (start kernheap m) 0 v kern_size page_rw s) ptov-zero
      ∙ rangemap-loop fuel (start kernheap m) 0 kernel_base kern_size page_rw s (omega arith)
          (omega arith)
      ∙ run

  kmem_init-loop :
      (m' : Machine)
      → range_loop fuel (start kernheap m) 0 kern_size kernel_base page_rw (before_range kernheap m)
        ≡ some m'
      → kmem_init fuel kernheap m ≡ some (record m' { cr3 = vtop m'.kpgdir })
  unfolding kmem_init memset
  kmem_init-loop m' run = rw (range_from_start m' run, kmem_init)

  Mapped-KernelMapped :
      (m' : Machine)
      → Mapped (start kernheap m) 0 kernel_base 65536 (before_range kernheap m) m'
      → KernelMapped kernheap (record m' { cr3 = vtop m'.kpgdir })
  Mapped-KernelMapped m' mapped =
      let e = empty_directory-IsEmptied kernheap m fits in
      record {
        kpgdir_start = mapped.same_kpgdir ∙ e.kpgdir_start;
        kmsize_start = mapped.same_kmsize ∙ e.kmsize_start;
        none_free = mapped.bump.none_free;
        aligned = mapped.bump.aligned;
        above =
            omega (arith, mapped.bump, mapped.same_kpgdir, e.kpgdir_start, pg_up_bound-eq kernheap);
        bounded = omega (arith, mapped.grown, e.brk_next, mapped.same_kpgdir, e.kpgdir_start);
        loaded = refl;
        maps = λ va h.
            translate-cr3 m'.kpgdir va (vtop m'.kpgdir) m'
            ∙ ap (λ (p : ℕ). translate p va m') (mapped.same_kpgdir ∙ e.kpgdir_start)
            ∙ mapped.maps va h
            ∙ ground (
              arith,
              translate-absent (start kernheap m) va (empty_directory kernheap m) h,
              e.cleared (va / 2 ^ 22),
            );
      }

-- With fuel for more than the 65536 pages of the kernel, and room above `kernheap` for the
-- directory, as many tables as pages and one page, `kmemInit` ends. It leaves the page directory
-- in the first page at or above `kernheap`, loaded, and every address of the kernel's range
-- translates to itself less KERNELBASE, every other address to 0.
pub kmem_init-maps :
    (fuel kernheap : ℕ) (m : Machine)
    → 65536 < fuel
    → kernheap + 4096 + kern_size + 4096 < 2 ^ 32
    → (m' : Machine) × (kmem_init fuel kernheap m ≡ some m') × KernelMapped kernheap m'
kmem_init-maps fuel kernheap m enough fits =
    let e = empty_directory-IsEmptied kernheap m fits in
    let (m', run, mapped) =
      range_loop-Mapped (start kernheap m) kern_size page_rw (omega arith) 65536 fuel 0 kernel_base
        (before_range kernheap m) enough (before_range-IsDirectory kernheap m fits)
        (empty_directory-IsBump kernheap m fits)
        (omega (arith, e.brk_next, pg_up_bound-eq kernheap)) in
    (
      record m' { cr3 = vtop m'.kpgdir },
      kmem_init-loop fuel kernheap m fits m' run,
      Mapped-KernelMapped fuel kernheap m fits m' mapped,
    )
