-- ===== src/Gdt/Decode.antt =====
-- What the processor reads back from a descriptor and a selector.
use orcas.Base.{◌⊎◌, ℕ, ◌+◌, ◌*◌, ◌/◌, ◌%◌, ◌^◌, ◌≤◌, ◌<◌, ◌≡◌, ltb, ◌==◌, if◌then◌else◌, arith}
use orcas.Base.Bits.{bit_and-ones, bit_or-fields}
use orcas.Gdt.{Gde, gde_init, gdt_init, selector}

-- The fields of a descriptor as the Intel manual lays them out: base, limit (in bytes, or in pages
-- where bit 7 of byte 6 is set), access byte.
abbrev pub base_of : Gde → ℕ
base_of d = d.target2 + d.target3 * 2 ^ 8 + d.target4 * 2 ^ 16 + d.target7 * 2 ^ 24

abbrev raw_limit : Gde → ℕ
raw_limit d = d.target0 + d.target1 * 2 ^ 8 + d.target6 % 16 * 2 ^ 16

abbrev pub last_offset : Gde → ℕ
last_offset d = if d.target6 / 2 ^ 7 == 1 then raw_limit d * 4096 + 4095 else raw_limit d

-- The processor reads back the base and the access byte that `gdeInit` was given, and the limit:
-- exactly up to 0xffff, and rounded up to the end of its page above.
pub gde_init-decode :
    (limit base privilege : ℕ)
    → limit < 2 ^ 32
    → base < 2 ^ 32
    → let d = gde_init limit base privilege in
      (base_of d ≡ base)
      × ((gde_init limit base privilege).target5 ≡ privilege)
      × (last_offset d ≡ (if ltb 0xffff limit then limit / 4096 * 4096 + 4095 else limit))
unfolding gde_init
gde_init-decode limit base privilege hl hb = ground (
  arith,
  bit_and-ones 8 limit,
  bit_and-ones 8 (limit / 2 ^ 8),
  bit_and-ones 4 (limit / 2 ^ 16),
  bit_and-ones 8 (limit / 2 ^ 12),
  bit_and-ones 8 (limit / 2 ^ 12 / 2 ^ 8),
  bit_and-ones 4 (limit / 2 ^ 12 / 2 ^ 16),
  bit_and-ones 8 base,
  bit_and-ones 8 (base / 2 ^ 8),
  bit_and-ones 8 (base / 2 ^ 16),
  bit_and-ones 8 (base / 2 ^ 24),
  bit_or-fields 4 12 (limit / 2 ^ 12 / 2 ^ 16 % 2 ^ 4),
  bit_or-fields 4 4 (limit / 2 ^ 16 % 2 ^ 4),
)

-- After `gdtInit` the four segments are flat, from 0 to the top of the address space, and no other
-- descriptor has changed.
gdt_init-flat :
    (gdt : ℕ → Gde) (i other : ℕ)
    → 1 ≤ i
    → i ≤ 4
    → (other < 1) ⊎ (4 < other)
    → (base_of (gdt_init gdt i) ≡ 0)
      × (last_offset (gdt_init gdt i) ≡ 0xffffffff)
      × (gdt_init gdt other ≡ gdt other)
unfolding gdt_init
gdt_init-flat gdt i other lo hi out = ground (
  arith,
  gde_init-decode 0xffffffff 0 0x9a,
  gde_init-decode 0xffffffff 0 0x92,
  gde_init-decode 0xffffffff 0 0xfa,
  gde_init-decode 0xffffffff 0 0xf2,
)

-- A selector names its index in the global table, at privilege level 0.
pub selector-fields :
    (index : ℕ)
    → index < 2 ^ 13
    → (selector index / 8 ≡ index) × (selector index / 4 % 2 ≡ 0) × (selector index % 4 ≡ 0)
unfolding selector
selector-fields index h = omega arith
