-- ===== src/Gdt/Tests.antt =====
-- A descriptor and the table at concrete values.
use orcas.Base.{◌≡◌, arith}
use orcas.Gdt.{gde_init}
use orcas.Gdt.Decode.{base_of, last_offset, gde_init-decode}

gde_init-decode_test :
    (base_of (gde_init 0x12345 0x89abcdef 0x9a) ≡ 0x89abcdef)
    × ((gde_init 0x12345 0x89abcdef 0x9a).target5 ≡ 0x9a)
    × (last_offset (gde_init 0x12345 0x89abcdef 0x9a) ≡ 0x12fff)
gde_init-decode_test = gde_init-decode 0x12345 0x89abcdef 0x9a (omega arith) (omega arith)
