-- ===== src/Memory/Table.antt =====
-- Two-level page tables: `getpte`, `translate`, `map`.
pub mod Entry
pub mod Map
pub mod Translate
use orcas.Base.{
  ℕ, ◌+◌, ◌*◌, ◌%◌, ◌≤◌, ◌<◌, ◌≡◌, refl, bit_and, bit_or, ◌==◌, if◌then◌else◌, u32, arith,
}
use orcas.Memory.Page.{page_present, pgt_size, pgd_index, pgt_index, ppn, offset, pg_low_bound}
use orcas.Memory.Machine.{Machine, store, memset, slot}
use orcas.Memory.Pool.{alloc_page}

pub getpte : (pgd va : ℕ) → Machine → ℕ
getpte pgd va m =
    let plb = pg_low_bound va in
    let pde = m.ram (slot pgd (pgd_index plb)) in
    if bit_and pde page_present == 0
    then 0
    else (let pte = m.ram (slot (ppn pde) (pgt_index plb)) in
        if bit_and pte page_present == 0 then 0 else pte)

pub translate : (pgd va : ℕ) → Machine → ℕ
translate pgd va m =
    let pte = getpte pgd va m in if pte == 0 then 0 else bit_or (ppn pte) (offset va)

-- The table that a directory entry names, the entry, and the machine: a table that is missing is
-- allocated and cleared.
pub table_for : (pde flags : ℕ) → Machine → ℕ × ℕ × Machine
table_for pde flags m =
    if bit_and pde page_present == 0
    then (let (page, m1) = alloc_page m in
        (page, bit_or (bit_or page flags) page_present, memset page 0 (pgt_size * 4) m1))
    else (ppn pde, pde, m)

-- The entry that was written, and the machine.
pub map : (pgd pa va flags : ℕ) → Machine → ℕ × Machine
map pgd pa va flags m =
    let plb = pg_low_bound va in
    let (pgtbl, pde, m1) = table_for (m.ram (slot pgd (pgd_index plb))) flags m in
    let m2 = store (slot pgd (pgd_index plb)) pde m1 in
    let here = slot pgtbl (pgt_index plb) in
    let m3 = store here (bit_or (bit_or (ppn pa) flags) page_present) m2 in (m3.ram here, m3)
