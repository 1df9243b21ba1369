-- ===== src/Idt/Gates.antt =====
-- The gates that `idtInit` leaves.
use orcas.Base.{
  ℕ, zero, suc, ◌+◌, ◌*◌, ◌/◌, ◌^◌, ◌≤◌, ◌<◌, ◌≡◌, refl, ltb, leb, ◌==◌, ◌&&◌, if◌then◌else◌, arith,
}
use orcas.Base.Bits.{bit_and-ones}
use orcas.Gdt.{selector, seg_kernel_code}
use orcas.Gdt.Decode.{selector-fields}
use orcas.Idt.{Gate, id_init, idt_fill, idt_init, idt_size, it_interrupt}

-- The address that the processor jumps to through a gate.
abbrev pub target : Gate → ℕ
target g = g.offsetlow16 + g.offsethigh16 * 2 ^ 16

id_init-target : (offset sel priv : ℕ) → offset < 2 ^ 32 → target (id_init offset sel priv) ≡ offset
unfolding id_init
id_init-target offset sel priv h =
    ground (arith, bit_and-ones 16 offset, bit_and-ones 16 (offset / 2 ^ 16))

id_init-rest :
    (offset sel priv : ℕ)
    → ((id_init offset sel priv).selector ≡ sel)
      × ((id_init offset sel priv).privilege ≡ priv)
      × ((id_init offset sel priv).reserved ≡ 0)
unfolding id_init
id_init-rest offset sel priv = (refl, refl, refl)

idt_fill-eq :
    (vectors : ℕ → ℕ) (left i : ℕ) (idt : ℕ → Gate) (j : ℕ)
    → idt_fill vectors left i idt j ≡ (
        if leb i j && ltb j (i + left)
        then id_init (vectors j) (selector seg_kernel_code) it_interrupt
        else idt j)
unfolding idt_fill
idt_fill-eq vectors zero i idt j = ground arith
idt_fill-eq vectors (suc left) i idt j = ground (
  arith,
  idt_fill-eq vectors left (i + 1)
      (λ k. if k == i then id_init (vectors i) (selector seg_kernel_code) it_interrupt else idt k)
      j,
)

-- After `idtInit` each of the 256 gates is a present ring-0 interrupt gate that leads, through the
-- kernel code segment, to the vector of its number; nothing past the table is touched.
pub idt_init-gates :
    (vectors : ℕ → ℕ) (idt : ℕ → Gate) (j past : ℕ)
    → j < idt_size
    → idt_size ≤ past
    → ((j : ℕ) → vectors j < 2 ^ 32)
    → let table = (idt_init vectors idt).0 in
      (target (table j) ≡ vectors j)
      × ((table j).selector / 8 ≡ seg_kernel_code)
      × ((table j).privilege ≡ it_interrupt)
      × (table past ≡ idt past)
unfolding idt_init
idt_init-gates vectors idt j past inside outside words =
    let g = id_init (vectors j) (selector seg_kernel_code) it_interrupt in
    let here : idt_fill vectors 256 0 idt j ≡ g = ground (arith, idt_fill-eq vectors 256 0 idt j) in
    rw here (
      id_init-target (vectors j) (selector seg_kernel_code) it_interrupt (words j),
      ground (
        arith,
        id_init-rest (vectors j) (selector seg_kernel_code) it_interrupt,
        selector-fields 1,
      ),
      (id_init-rest (vectors j) (selector seg_kernel_code) it_interrupt).1,
      ground (arith, idt_fill-eq vectors 256 0 idt past),
    )
