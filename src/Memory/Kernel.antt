-- ===== src/Memory/Kernel.antt =====
-- `kmemInit`: the pool, the break and the kernel's page directory.
pub mod Maps
use orcas.Base.{ℕ, ◌*◌, Option, none, some}
use orcas.Memory.Page.{pgd_size, page_rw, kern_size, pg_up_bound, ptov, vtop}
use orcas.Memory.Machine.{Machine, memset}
use orcas.Memory.Pool.{alloc_page}
use orcas.Memory.Range.{rangemap}

-- `lcr3(VTOP(pgd))`
unfoldable pub switch_page_table : ℕ → Machine → Machine
switch_page_table pgd m = record m { cr3 = vtop pgd }

-- `lcr3(npgd)`, without VTOP.
unfoldable pub switchpgt : ℕ → Machine → Machine
switchpgt npgd m = record m { cr3 = npgd }

-- `kmemInit` up to the call of `rangemap`. `kernheap` is the address that the linker gives the
-- symbol of that name.
pub empty_directory : (kernheap : ℕ) → Machine → Machine
empty_directory kernheap m =
    let m0 = record m { avail = 0; brk = pg_up_bound kernheap; kmsize = pg_up_bound kernheap } in
    let (page, m1) = alloc_page m0 in
    let m2 = record m1 { kpgdir = page } in memset m2.kpgdir 0 (pgd_size * 4) m2

pub kmem_init : (fuel kernheap : ℕ) → Machine → Option Machine
unfolding switch_page_table
kmem_init fuel kernheap m =
    let m3 = empty_directory kernheap m in
    elim (rangemap fuel m3.kpgdir 0 (ptov 0) kern_size page_rw m3) [
      | none ↦ none
      | some m4 ↦ some (switch_page_table m4.kpgdir m4)
    ]
