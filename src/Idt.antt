-- ===== src/Idt.antt =====
-- idt.c and idt.h: interrupt gates, the controllers' set-up, and the dispatch of an interrupt.
pub mod Gates
pub mod Dispatch
mod Tests
use orcas.Base.{
  ℕ, zero, suc, ◌+◌, ◌*◌, bit_and, ltb, leb, ◌==◌, if◌then◌else◌, ◌>>>◌, List, [], ◌∷◌, ◌++◌,
}
use orcas.Gdt.{selector, seg_kernel_code}
use orcas.Port.{Event, outb, pic_master_cmd, pic_master_data, pic_slave_cmd, pic_slave_data}

-- `struct ide_t`
pub record Gate : Type 0 where
  pub offsetlow16 : ℕ
  pub selector : ℕ
  pub reserved : ℕ
  pub privilege : ℕ
  pub offsethigh16 : ℕ

abbrev pub idt_size : ℕ
idt_size = 256

abbrev idx_syscall : ℕ
idx_syscall = 128

abbrev pub it_interrupt : ℕ
it_interrupt = 0x8e

abbrev master_bound : ℕ
master_bound = 0x20

abbrev slave_bound : ℕ
slave_bound = 0x28

abbrev eoi : ℕ
eoi = 0x20

abbrev iv_timer : ℕ
iv_timer = 32

abbrev iv_keyboard : ℕ
iv_keyboard = 33

pub id_init : (offset selector privilege : ℕ) → Gate
id_init offset selector privilege = record {
  offsetlow16 = bit_and offset 0xffff;
  selector = selector;
  reserved = 0;
  privilege = privilege;
  offsethigh16 = bit_and (offset >>> 16) 0xffff;
}

-- The `for` over the table; `left` counts the rounds left. Both branches of the test on
-- IDX_SYSCALL store the same gate.
idt_fill : (vectors : ℕ → ℕ) (left i : ℕ) → (ℕ → Gate) → ℕ → Gate
idt_fill vectors zero i idt = idt
idt_fill vectors (suc left) i idt =
    let gate =
      if i == idx_syscall
      then id_init (vectors i) (selector seg_kernel_code) it_interrupt
      else id_init (vectors i) (selector seg_kernel_code) it_interrupt in
    idt_fill vectors left (i + 1) (λ j. if j == i then gate else idt j)

-- What `idtInit` writes to the interrupt controllers.
pic_setup : List Event
pic_setup =
    outb pic_master_cmd 0x11
    ∷ outb pic_master_data 0x20
    ∷ outb pic_master_data 0x04
    ∷ outb pic_master_data 0x01
    ∷ outb pic_slave_cmd 0x11
    ∷ outb pic_slave_data 0x28
    ∷ outb pic_slave_data 0x02
    ∷ outb pic_slave_data 0x01
    ∷ outb pic_master_data 0x00
    ∷ outb pic_slave_data 0x00
    ∷ []

-- `vectors` is `interruptVectors` of interruptVector.s.
pub idt_init : (vectors : ℕ → ℕ) → (ℕ → Gate) → (ℕ → Gate) × List Event
idt_init vectors idt = (idt_fill vectors idt_size 0 idt, pic_setup)

-- What the `switch` of `handleInterrupt` calls.
pub data Handler : Type 0 where
  kbd_interrupt_handler thr_yeild nothing : Handler

pub handle_interrupt : (trapno : ℕ) → List Event × Handler
handle_interrupt trapno =
    let acks =
      if leb master_bound trapno
      then outb pic_master_cmd eoi
        ∷ (if leb slave_bound trapno then outb pic_slave_cmd eoi ∷ [] else [])
      else [] in
    (
      acks,
      if trapno == iv_keyboard
          then kbd_interrupt_handler
          else if trapno == iv_timer
          then thr_yeild
          else nothing,
    )
