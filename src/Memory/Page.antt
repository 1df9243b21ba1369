-- ===== src/Memory/Page.antt =====
-- The constants and address macros of memory.h, on 32-bit words.
use orcas.Base.{
  ℕ, ◌+◌, ◌-◌, ◌*◌, ◌/◌, ◌%◌, ◌^◌, ◌≤◌, ◌<◌, bit_and, bit_or, ◌≡◌, refl, u32, ◌>>>◌, arith,
}
use orcas.Base.Bits.{bit_and-ones, bit_and-page, bit_or-fields, bit_or-one}

-- PGTSIZE, PGDSIZE, PGSIZE
abbrev pub pgt_size : ℕ
pgt_size = 1024

abbrev pub pgd_size : ℕ
pgd_size = 1024

abbrev pub pg_size : ℕ
pg_size = 4096

-- PAGE_PRESENT, PAGE_RW, PAGE_USER
abbrev pub page_present : ℕ
page_present = 1

abbrev pub page_rw : ℕ
page_rw = 2

abbrev page_user : ℕ
page_user = 4

-- CPL_USER, CPL_KERN
abbrev cpl_user : ℕ
cpl_user = 0

abbrev pub cpl_kern : ℕ
cpl_kern = 3

-- KERNELBASE under VIRTUAL_MACHINE, and KERNSIZE
abbrev pub kernel_base : ℕ
kernel_base = 0x8000000

abbrev pub kern_size : ℕ
kern_size = 0x10000000

-- VTOP and PTOV; `2 ^ 32` stands for the wrap of the unsigned subtraction.
unfoldable pub vtop : ℕ → ℕ
vtop a = u32 (a + 2 ^ 32 - kernel_base)

pub ptov : ℕ → ℕ
ptov a = u32 (a + kernel_base)

pub pgd_index : ℕ → ℕ
pgd_index va = bit_and (va >>> 22) 0x3ff

pub pgt_index : ℕ → ℕ
pgt_index va = bit_and (va >>> 12) 0x3ff

-- `~(PGSIZE - 1)` is 0xfffff000 on 32 bits.
pub ppn : ℕ → ℕ
ppn pa = bit_and pa 0xfffff000

pub offset : ℕ → ℕ
offset a = bit_and a 0xfff

unfoldable pub pg_up_bound : ℕ → ℕ
pg_up_bound a = bit_and (u32 (a + pg_size - 1)) 0xfffff000

pub pg_low_bound : ℕ → ℕ
pg_low_bound a = bit_and a 0xfffff000

pub pgd_index-eq : (va : ℕ) → va < 2 ^ 32 → pgd_index va ≡ va / 2 ^ 22
unfolding pgd_index
pgd_index-eq va h = omega (arith, bit_and-ones 10 (va / 2 ^ 22))

pub pgt_index-eq : (va : ℕ) → pgt_index va ≡ va / 4096 % 1024
unfolding pgt_index
pgt_index-eq va = omega (arith, bit_and-ones 10 (va / 4096))

pub ppn-eq : (pa : ℕ) → pa < 2 ^ 32 → ppn pa ≡ pa / 4096 * 4096
unfolding ppn
ppn-eq = bit_and-page

pub offset-eq : (a : ℕ) → offset a ≡ a % 4096
unfolding offset
offset-eq a = bit_and-ones 12 a

pub pg_low_bound-eq : (a : ℕ) → a < 2 ^ 32 → pg_low_bound a ≡ a / 4096 * 4096
unfolding pg_low_bound
pg_low_bound-eq = bit_and-page

pub pg_up_bound-eq : (a : ℕ) → pg_up_bound a ≡ (a + 4095) % 2 ^ 32 / 4096 * 4096
unfolding pg_up_bound
pg_up_bound-eq a = ground (arith, bit_and-page ((a + 4096 - 1) % 2 ^ 32) (omega arith))

-- A 32-bit address is its directory index, its table index and its offset, each within its field.
address_fields :
    (va : ℕ)
    → va < 2 ^ 32
    → (va ≡ pgd_index va * 2 ^ 22 + pgt_index va * 2 ^ 12 + offset va)
      × (pgd_index va < pgd_size)
      × (pgt_index va < pgt_size)
      × (offset va < pg_size)
address_fields va h = omega (arith, pgd_index-eq va h, pgt_index-eq va, offset-eq va)

-- PGUPBOUND of an address in reach is the least page boundary that is not below it.
pg_up_bound-least :
    (a : ℕ)
    → a ≤ 2 ^ 32 - pg_size
    → (pg_up_bound a % pg_size ≡ 0) × (a ≤ pg_up_bound a) × (pg_up_bound a < a + pg_size)
pg_up_bound-least a h = omega (arith, pg_up_bound-eq a)

-- VTOP and PTOV undo each other on 32-bit addresses.
vtop-ptov : (a : ℕ) → a < 2 ^ 32 → (vtop (ptov a) ≡ a) × (ptov (vtop a) ≡ a)
unfolding vtop ptov
vtop-ptov a h = omega arith

-- A page table entry: the frame above, the flags below, bit 0 set.
pub entry-eq :
    (pa flags : ℕ)
    → pa < 2 ^ 32
    → flags < pg_size
    → bit_or (bit_or (ppn pa) flags) page_present ≡ pa / 4096 * 4096 + flags / 2 * 2 + 1
entry-eq pa flags h hf =
    ground (
      arith,
      ppn-eq pa h,
      bit_or-fields 12 (pa / 4096) flags,
      bit_or-one (pa / 4096 * 4096 + flags),
    )

pub ptov-zero : ptov 0 ≡ kernel_base
unfolding ptov
ptov-zero = refl
