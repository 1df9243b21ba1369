-- ===== src/Memory/Machine.antt =====
-- The machine state that memory.c works on: memory as 32-bit words, the page pool and the heap.
use orcas.Base.{
  ℕ, ◌^◌, ◌/◌, ◌+◌, ◌*◌, ◌%◌, ◌≤◌, ◌<◌, ◌≡◌, ◌&&◌, u32, u8, ltb, leb, ◌==◌, if◌then◌else◌, arith,
}

-- `ram a` is the 32-bit word at byte address `a`, for word-aligned `a`.
-- `free_list` is `pglist.next`, `avail` is `pgavail`, `cr3` the page directory register.
pub record Machine : Type 0 where
  pub ram : ℕ → ℕ
  pub free_list : ℕ
  pub avail : ℕ
  pub brk : ℕ
  pub kmsize : ℕ
  pub kpgdir : ℕ
  pub cr3 : ℕ

-- `*(uint32_t *)a = v`
unfoldable pub store : ℕ → ℕ → Machine → Machine
store a v m = record m { ram = λ b. if b == a then v else m.ram b }

-- `stosb` on whole words: each of the four bytes of a word in range is `byte`.
stosb : ℕ → ℕ → ℕ → Machine → Machine
stosb addr byte cnt m = record m {
  ram = λ b. if leb addr b && ltb b (addr + cnt) then u8 byte * 0x01010101 else m.ram b;
}

unfoldable pub memset : ℕ → ℕ → ℕ → Machine → Machine
unfolding stosb
memset addr byte cnt m = stosb addr byte cnt m

-- `&p[i]` for an array of 4-byte entries
unfoldable pub slot : ℕ → ℕ → ℕ
slot p i = u32 (p + 4 * i)

-- The 1024 entries of an aligned page lie in that page, each at its own address.
module _ (p i : ℕ) (aligned : p % 4096 ≡ 0) (reach : p + 4096 ≤ 2 ^ 32) (hi : i < 1024) where
  pub slot-eq : slot p i ≡ p + 4 * i
  unfolding slot
  slot-eq = omega arith

  pub slot-page : slot p i / 4096 ≡ p / 4096
  unfolding slot
  slot-page = omega arith

pub slot-index :
    (p i j : ℕ)
    → p % 4096 ≡ 0
    → p + 4096 ≤ 2 ^ 32
    → i < 1024
    → j < 1024
    → slot p i ≡ slot p j
    → i ≡ j
unfolding slot
slot-index p i j a r hi hj e = omega arith
