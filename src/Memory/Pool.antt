-- ===== src/Memory/Pool.antt =====
-- The pool of physical pages: `allocPage` and `freePage`.
pub mod Stack
use orcas.Base.{
  ℕ, ◌+◌, ◌-◌, ◌%◌, ◌≤◌, ◌<◌, ◌≡◌, ◌≢◌, ◌⊎◌, refl, ltb, if◌then◌else◌, arith, u32, List, [], ◌∷◌,
  length,
}
use orcas.Memory.Page.{pg_size}
use orcas.Memory.Machine.{Machine, store, memset}

-- A page from the list, if there is one, otherwise the page at the break. `struct page` holds
-- `addr` in its first word and `next` in its second.
unfoldable pub alloc_page : Machine → ℕ × Machine
alloc_page m =
    if ltb 0 m.avail
    then (
      m.ram m.free_list,
      record m { free_list = m.ram (u32 (m.free_list + 4)); avail = m.avail - 1 },
    )
    else (m.brk, record m { brk = u32 (m.brk + pg_size) })

-- `freePage` stores through a pointer that it never sets: `p` is the value it happens to have.
pub free_page : (p addr : ℕ) → Machine → Machine
free_page p addr m =
    let m1 = store p addr m in
    let m2 = memset (m1.ram p) 0 pg_size m1 in
    let m3 = store (u32 (p + 4)) m2.free_list m2 in
    record m3 { free_list = p; avail = m3.avail + 1 }

pub ram-alloc_page : (m : Machine) → (alloc_page m).1.ram ≡ m.ram
unfolding alloc_page
ram-alloc_page m = ground arith

-- With an empty list a page comes from the break.
pub alloc_page-brk :
    (m : Machine)
    → m.avail ≡ 0
    → ((alloc_page m).0 ≡ m.brk)
      × ((alloc_page m).1.brk ≡ u32 (m.brk + pg_size))
      × ((alloc_page m).1.avail ≡ 0)
unfolding alloc_page
alloc_page-brk m h = ground arith

-- Only `sbrk` and `kmemInit` move these.
pub alloc_page-keeps :
    (m : Machine) → ((alloc_page m).1.kmsize ≡ m.kmsize) × ((alloc_page m).1.kpgdir ≡ m.kpgdir)
unfolding alloc_page
alloc_page-keeps m = ground arith
