-- ===== src/Memory/Range.antt =====
-- `rangemap`: a loop over the pages of a range.
pub mod Mapped
use orcas.Base.{ℕ, zero, suc, ◌+◌, u32, ltb, true, false, Option, none, some}
use orcas.Memory.Page.{pg_size, pg_low_bound}
use orcas.Memory.Machine.{Machine}
use orcas.Memory.Table.{map}

-- The `while` of `rangemap`, with fuel; `none` means that the fuel ran out.
pub range_loop : (fuel pgd plb top vlb flags : ℕ) → Machine → Option Machine
range_loop zero pgd plb top vlb flags m = none
range_loop (suc fuel) pgd plb top vlb flags m = elim (ltb plb top) [
  | true ↦
      range_loop fuel pgd (u32 (plb + pg_size)) top (u32 (vlb + pg_size)) flags
        (map pgd plb vlb flags m).1
  | false ↦ some m
]

-- `top` is `pub` in the source.
pub rangemap : (fuel pgd pa va size flags : ℕ) → Machine → Option Machine
unfolding range_loop
rangemap fuel pgd pa va size flags m =
    let plb = pg_low_bound pa in
    range_loop fuel pgd plb (u32 (plb + size)) (pg_low_bound va) flags m
