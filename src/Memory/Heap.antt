-- ===== src/Memory/Heap.antt =====
-- The kernel heap: `vmalloc`, `sbrk`, `kmalloc`.
pub mod Grow
use orcas.Base.{ℕ, zero, suc, ◌+◌, u32, ltb, true, false, Option, none, some}
use orcas.Memory.Page.{pg_size, pg_up_bound, cpl_kern}
use orcas.Memory.Machine.{Machine}
use orcas.Memory.Pool.{alloc_page}

-- The `while` of `vmalloc`: one page for each page boundary below `newsize`, none of them mapped.
unfoldable pub vmalloc_loop : (fuel upbound newsize : ℕ) → Machine → Option Machine
vmalloc_loop zero upbound newsize m = none
vmalloc_loop (suc fuel) upbound newsize m = elim (ltb upbound newsize) [
  | true ↦ vmalloc_loop fuel (u32 (upbound + pg_size)) newsize (alloc_page m).1
  | false ↦ some m
]

-- The flags that the source computes from `privilege` are never used.
unfoldable pub vmalloc : (fuel pgd oldsize newsize privilege : ℕ) → Machine → Option (ℕ × Machine)
unfolding vmalloc_loop
vmalloc fuel pgd oldsize newsize privilege m =
    elim (vmalloc_loop fuel (pg_up_bound oldsize) newsize m) [
      | none ↦ none
      | some m' ↦ some (newsize, m')
    ]

unfoldable pub sbrk : (fuel size : ℕ) → Machine → Option (ℕ × Machine)
unfolding vmalloc
sbrk fuel size m = elim (vmalloc fuel m.kpgdir m.kmsize (u32 (m.kmsize + size)) cpl_kern m) [
  | none ↦ none
  | some (new, m') ↦ some (m.kmsize, record m' { kmsize = u32 (m'.kmsize + size) })
]

unfoldable pub kmalloc : (fuel size : ℕ) → Machine → Option (ℕ × Machine)
unfolding sbrk
kmalloc fuel size m = sbrk fuel size m
