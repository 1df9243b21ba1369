-- ===== src/Memory/Tests.antt =====
-- Runs of memory.c at concrete addresses.
use orcas.Base.{◌+◌, ◌≡◌, ◌==◌, if◌then◌else◌, refl, arith, inl, [], ◌∷◌, some}
use orcas.Memory.Page.{pg_up_bound, vtop}
use orcas.Memory.Machine.{Machine}
use orcas.Memory.Pool.{alloc_page, alloc_page-brk, free_page}
use orcas.Memory.Pool.Stack.{IsPool, Popped, alloc_page-pops, free_page-pushes, free_page-clobbered}
use orcas.Memory.Table.{map, translate}
use orcas.Memory.Table.Entry.{IsDirectory}
use orcas.Memory.Table.Map.{IsReady}
use orcas.Memory.Table.Translate.{map-translate}
use orcas.Memory.Kernel.{kmem_init, switch_page_table}
use orcas.Memory.Kernel.Maps.{KernelMapped, kmem_init-maps}
use orcas.Memory.Heap.{vmalloc_loop, vmalloc, sbrk, kmalloc}
use orcas.Memory.Heap.Grow.{sbrk-grows, sbrk-kmem_init}

-- Memory of zeros, with an empty directory at 0x1000 and the break at 0x2000.
abbrev blank : Machine
blank = record {
  ram = λ _. 0;
  free_list = 0;
  avail = 0;
  brk = 0x2000;
  kmsize = 0x2000;
  kpgdir = 0x1000;
  cr3 = 0;
}

blank-IsDirectory : IsDirectory 0x1000 blank.ram
blank-IsDirectory = record {
  aligned = refl;
  in_reach = omega arith;
  words = λ i hi. omega arith;
  apart = λ i hi odd. absurd (omega (arith, odd));
  distinct = λ i j hi hj odd_i odd_j same. absurd (omega (arith, odd_i));
}

blank-IsReady : IsReady 0x1000 0x5123 blank
blank-IsReady even = record {
  aligned = omega (arith, alloc_page-brk blank refl);
  in_reach = omega (arith, alloc_page-brk blank refl);
  ne_pgd = λ e. absurd (omega (arith, e, alloc_page-brk blank refl));
  ne_table = λ i hi odd. absurd (omega (arith, odd));
}

map-translate_example : translate 0x1000 0x5456 (map 0x1000 0x9000 0x5123 2 blank).1 ≡ 0x9456
map-translate_example =
    map-translate 0x1000 0x9000 0x5123 2 blank blank-IsDirectory (omega arith) (omega arith)
      (omega arith) blank-IsReady 0x5456 (omega arith)

kmem_init-maps_example :
    (m : Machine) × (kmem_init 65537 0x8100000 blank ≡ some m) × KernelMapped 0x8100000 m
kmem_init-maps_example = kmem_init-maps 65537 0x8100000 blank (omega arith) (omega arith)

sbrk-grows_example :
    (m : Machine) × (sbrk 4 5000 blank ≡ some (0x2000, m))
    × (m.kmsize ≡ 0x2000 + 5000)
    × (m.brk + pg_up_bound 0x2000 ≡ 0x2000 + pg_up_bound m.kmsize)
    × (m.ram ≡ blank.ram)
    × (m.kpgdir ≡ 0x1000)
    × (m.avail ≡ 0)
sbrk-grows_example = sbrk-grows 4 5000 blank (omega arith) refl (omega arith) (omega arith)

sbrk-kmem_init_example :
    (m1 : Machine) × (kmem_init 65537 0x8100000 blank ≡ some m1)
    × ((m2 : Machine) × (sbrk 4 5000 m1 ≡ some (m1.kpgdir, m2)) × (m2.kpgdir ≡ m1.kpgdir))
sbrk-kmem_init_example =
    sbrk-kmem_init 65537 0x8100000 4 5000 blank (omega arith) (omega arith) (omega arith)
      (omega arith)

-- One free page, 0x5000, under the node 0x100.
abbrev pooled : Machine
pooled = record blank { ram = λ a. if a == 0x100 then 0x5000 else 0; free_list = 0x100; avail = 1 }

pooled-IsPool : IsPool pooled ((0x100, 0x5000) ∷ [])
pooled-IsPool = record { chain = (refl, refl, tt); count = refl }

alloc_page-pops_example : Popped pooled ((0x100, 0x5000) ∷ []) (alloc_page pooled)
alloc_page-pops_example = alloc_page-pops pooled ((0x100, 0x5000) ∷ []) pooled-IsPool

free_page-pushes_example :
    IsPool (free_page 0x200 0x6000 pooled) ((0x200, 0x6000) ∷ (0x100, 0x5000) ∷ [])
    × ((free_page 0x200 0x6000 pooled).ram 0x6008 ≡ 0)
free_page-pushes_example =
    free_page-pushes 0x200 0x6000 0x6008 pooled ((0x100, 0x5000) ∷ []) pooled-IsPool (omega arith)
      (omega arith) (omega arith, inl (omega arith))
      (
        (ground arith, ground arith, inl (omega arith)),
        (ground arith, ground arith, inl (omega arith)),
        tt,
      )

free_page-clobbered_test : (alloc_page (free_page 0x6010 0x6000 blank)).0 ≡ 0
free_page-clobbered_test =
    free_page-clobbered 0x6010 0x6000 blank (omega arith) (omega arith) (omega arith)

-- Two pages for 5000 bytes.
kmalloc-two_pages :
    kmalloc 4 5000 blank ≡ some (0x2000, record blank { kmsize = 13192; brk = 0x4000 })
unfolding kmalloc sbrk vmalloc vmalloc_loop alloc_page pg_up_bound
kmalloc-two_pages = refl

switch_page_table-cr3 : (switch_page_table 0x8101000 blank).cr3 ≡ 0x101000
unfolding switch_page_table vtop
switch_page_table-cr3 = refl
