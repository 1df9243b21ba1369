-- ===== src/Gdt.antt =====
-- gdt.c and gdt.h: segment descriptors, the descriptor table, selectors.
pub mod Decode
mod Tests
use orcas.Base.{ℕ, bit_and, bit_or, u16, ltb, ◌==◌, if◌then◌else◌, ◌>>>◌, ◌<<<◌}

-- The eight bytes that `gdeInit` addresses as `target[0..7]`.
pub record Gde : Type 0 where
  pub target0 : ℕ
  pub target1 : ℕ
  pub target2 : ℕ
  pub target3 : ℕ
  pub target4 : ℕ
  pub target5 : ℕ
  pub target6 : ℕ
  pub target7 : ℕ

-- `enum SEG` and the segment types
abbrev pub seg_kernel_code : ℕ
seg_kernel_code = 1

abbrev seg_kernel_data : ℕ
seg_kernel_data = 2

abbrev seg_user_code : ℕ
seg_user_code = 3

abbrev seg_user_data : ℕ
seg_user_data = 4

abbrev st_kernel_code : ℕ
st_kernel_code = 0x9a

abbrev st_kernel_data : ℕ
st_kernel_data = 0x92

abbrev st_user_code : ℕ
st_user_code = 0xfa

abbrev st_user_data : ℕ
st_user_data = 0xf2

-- A limit above 0xffff is counted in pages.
pub gde_init : (limit base privilege : ℕ) → Gde
gde_init limit base privilege =
    let paged = ltb 0xffff limit in
    let lim = if paged then limit >>> 12 else limit in
    let flags : ℕ = if paged then 0xc0 else 0x40 in
    record {
      target0 = bit_and lim 0xff;
      target1 = bit_and (lim >>> 8) 0xff;
      target2 = bit_and base 0xff;
      target3 = bit_and (base >>> 8) 0xff;
      target4 = bit_and (base >>> 16) 0xff;
      target5 = privilege;
      target6 = bit_or flags (bit_and (lim >>> 16) 0xf);
      target7 = bit_and (base >>> 24) 0xff;
    }

-- `gdt[i] = d` on the table
put : ℕ → Gde → (ℕ → Gde) → ℕ → Gde
put i d gdt j = if j == i then d else gdt j

pub gdt_init : (ℕ → Gde) → ℕ → Gde
unfolding put
gdt_init gdt =
    let t1 = put seg_kernel_code (gde_init 0xffffffff 0 st_kernel_code) gdt in
    let t2 = put seg_kernel_data (gde_init 0xffffffff 0 st_kernel_data) t1 in
    let t3 = put seg_user_code (gde_init 0xffffffff 0 st_user_code) t2 in
    put seg_user_data (gde_init 0xffffffff 0 st_user_data) t3

pub selector : ℕ → ℕ
selector index = u16 (index <<< 3)
