-- ===== src/Memory/Table/Map.antt =====
-- `map` against the page tables that it changes: what every address maps to afterwards.
use native.Mathlib.Decide.{ℕ_discrete}
use orcas.Base.{
  ℕ, ◌+◌, ◌*◌, ◌/◌, ◌%◌, ◌^◌, ◌<◌, ◌≡◌, fun_ext, bit_or, ◌&&◌, ◌==◌, if◌then◌else◌, u32, arith,
}
use orcas.Base.Bits.{bit_and-one, bit_or-fields, bit_or-one}
use orcas.Memory.Page.{
  page_present, pgd_index, pgt_index, pgd_index-eq, pgt_index-eq, ppn, ppn-eq, pg_low_bound,
  pg_low_bound-eq, entry-eq, pg_size,
}
use orcas.Memory.Machine.{Machine, store, memset, slot}
use orcas.Memory.Pool.{alloc_page, ram-alloc_page, alloc_page-brk, alloc_page-keeps}
use orcas.Memory.Table.{getpte, table_for, map}
use orcas.Memory.Table.Entry.{
  entry, IsDirectory, IsFresh, with_entry, with_table, after-pgd, pgd-with_entry, entry-with_entry,
  entry-with_table,
}

-- The indices of an address.
abbrev pub dir : ℕ → ℕ
dir va = va / 2 ^ 22

abbrev pub tab : ℕ → ℕ
tab va = va / 4096 % 1024

indices :
    (va : ℕ)
    → va < 2 ^ 32
    → (pgd_index (pg_low_bound va) ≡ dir va) × (pgt_index (pg_low_bound va) ≡ tab va)
indices va h =
    omega
      (arith, pg_low_bound-eq va h, pgd_index-eq (pg_low_bound va), pgt_index-eq (pg_low_bound va))

-- The entry that `map` writes.
abbrev pub pte_of : (pa flags : ℕ) → ℕ
pte_of pa flags = bit_or (bit_or (ppn pa) flags) page_present

pub getpte-eq-entry :
    (pgd va : ℕ) (m : Machine)
    → va < 2 ^ 32
    → m.ram (slot pgd (dir va)) < 2 ^ 32
    → getpte pgd va m ≡ entry m.ram pgd (dir va) (tab va)
unfolding getpte
getpte-eq-entry pgd va m h w = ground (
  arith,
  indices va h,
  ppn-eq (m.ram (slot pgd (dir va))) w,
  bit_and-one (m.ram (slot pgd (dir va))),
  bit_and-one (m.ram (slot (m.ram (slot pgd (dir va)) / 4096 * 4096) (tab va))),
)

module _ (pgd pa va flags : ℕ) (m : Machine) (hva : va < 2 ^ 32) where
  ram-map_old :
      m.ram (slot pgd (dir va)) < 2 ^ 32
      → m.ram (slot pgd (dir va)) % 2 ≡ 1
      → (map pgd pa va flags m).1.ram ≡ with_entry m.ram pgd (dir va) (tab va) (pte_of pa flags)
  unfolding map table_for store
  ram-map_old w odd = fun_ext λ a. ground (
    arith,
    indices va hva,
    ppn-eq (m.ram (slot pgd (dir va))) w,
    bit_and-one (m.ram (slot pgd (dir va))),
  )

  ram-map_new :
      m.ram (slot pgd (dir va)) % 2 ≡ 0
      → let page = (alloc_page m).0 in
        (map pgd pa va flags m).1.ram
        ≡ with_table m.ram pgd page
            (dir va)
            (tab va)
            (bit_or (bit_or page flags) page_present)
            (pte_of pa flags)
  unfolding map table_for store memset
  ram-map_new even =
      fun_ext λ a.
        ground (arith, indices va hva, bit_and-one (m.ram (slot pgd (dir va))), ram-alloc_page m)

-- The page that `map` would take, if it has to, is a fresh one.
abbrev pub IsReady : (pgd va : ℕ) → Machine → Type 0
IsReady pgd va m = m.ram (slot pgd (dir va)) % 2 ≡ 0 → IsFresh pgd (alloc_page m).0 m.ram

module _ (pgd pa va flags : ℕ) (m : Machine) (d : IsDirectory pgd m.ram) (hpa : pa < 2 ^ 32)
    (hva : va < 2 ^ 32) (hf : flags < 4096) (ready : IsReady pgd va m) where
  -- The directory entry of a new table.
  new_pde :
      m.ram (slot pgd (dir va)) % 2 ≡ 0
      → let page = (alloc_page m).0 in
        bit_or (bit_or page flags) page_present ≡ page + flags / 2 * 2 + 1
  new_pde even =
      let f = ready even in
      ground (
        arith,
        f.aligned,
        bit_or-fields 12 ((alloc_page m).0 / 4096) flags,
        bit_or-one ((alloc_page m).0 + flags),
      )

  -- What an entry of the directory holds after `map`.
  pub entry-map :
      (k l : ℕ)
      → k < 1024
      → l < 1024
      → entry (map pgd pa va flags m).1.ram pgd k l
        ≡ (if k == dir va && l == tab va then pte_of pa flags else entry m.ram pgd k l)
  entry-map k l hk hl = elim (ℕ_discrete (m.ram (slot pgd (dir va)) % 2) 0) [
    | yes even ↦
        let f = ready even in
        rw (ram-map_new pgd pa va flags m hva even) (
          entry-with_table d f (dir va) (tab va)
            (bit_or (bit_or (alloc_page m).0 flags) page_present) (pte_of pa flags) (omega arith)
            (omega arith) k l hk hl (omega (arith, entry-eq pa flags hpa hf)) even
            (omega (arith, new_pde even, f.aligned)) (omega (arith, new_pde even, f.aligned)))
    | no odd ↦
        rw (ram-map_old pgd pa va flags m hva (d.words (dir va) (omega arith)) (omega arith)) (
          entry-with_entry d (dir va) (tab va) (pte_of pa flags) (omega arith) (omega arith)
            (omega (arith, entry-eq pa flags hpa hf)) k l hk hl (omega arith))
  ]

  -- What the directory itself holds after `map`.
  pub pde-map :
      (k : ℕ)
      → k < 1024
      → (map pgd pa va flags m).1.ram (slot pgd k) ≡ (
          if k == dir va && m.ram (slot pgd (dir va)) % 2 == 0
          then (alloc_page m).0 + flags / 2 * 2 + 1
          else m.ram (slot pgd k))
  pde-map k hk = elim (ℕ_discrete (m.ram (slot pgd (dir va)) % 2) 0) [
    | yes even ↦ rw (ram-map_new pgd pa va flags m hva even) (
        ground (
          arith,
          even,
          new_pde even,
          after-pgd d (ready even) (dir va) (tab va)
              (bit_or (bit_or (alloc_page m).0 flags) page_present) (pte_of pa flags) (omega arith)
              (omega arith) k 0 hk (omega arith),
        ))
    | no odd ↦
        rw (ram-map_old pgd pa va flags m hva (d.words (dir va) (omega arith)) (omega arith)) (
          ground (
            arith,
            odd,
            pgd-with_entry d (dir va) (tab va) (pte_of pa flags) (omega arith) (omega arith) k hk,
          ))
  ]

-- What `map` does to the pool and the heap: at most what one `allocPage` does.
pub map-pool :
    (pgd pa va flags : ℕ) (m : Machine)
    → va < 2 ^ 32
    → m.avail ≡ 0
    → ((map pgd pa va flags m).1.avail ≡ 0)
      × ((map pgd pa va flags m).1.brk
          ≡ (if m.ram (slot pgd (dir va)) % 2 == 0 then u32 (m.brk + pg_size) else m.brk))
      × ((map pgd pa va flags m).1.kmsize ≡ m.kmsize)
      × ((map pgd pa va flags m).1.kpgdir ≡ m.kpgdir)
unfolding map table_for store memset
map-pool pgd pa va flags m hva h = ground (
  arith,
  indices va hva,
  bit_and-one (m.ram (slot pgd (dir va))),
  alloc_page-brk m h,
  alloc_page-keeps m,
)
