-- ===== src/Idt/Dispatch.antt =====
-- Which controllers `handleInterrupt` acknowledges, and which handler it calls.
use orcas.Base.{ℕ, ◌≡◌, ◌↔◌, Bool, false, leb, ◌==◌, ◌||◌, ◌&&◌, arith, List, [], ◌∷◌}
use orcas.Port.{Event, out_byte, out_words, outb}
use orcas.Idt.{handle_interrupt, kbd_interrupt_handler, thr_yeild}

-- The command port is written with the end-of-interrupt code.
abbrev pub acknowledged : (port : ℕ) → List Event → Bool
acknowledged port [] = false
acknowledged port (out_byte p v ∷ es) = (p == port && v == 0x20) || acknowledged port es
acknowledged port (out_words p ws ∷ es) = acknowledged port es

-- The master is acknowledged exactly from vector 32 on, the slave exactly from vector 40 on.
pub handle_interrupt-acknowledges :
    (trapno : ℕ)
    → (acknowledged 0x20 (handle_interrupt trapno).0 ≡ leb 32 trapno)
      × (acknowledged 0xa0 (handle_interrupt trapno).0 ≡ leb 40 trapno)
unfolding handle_interrupt outb
handle_interrupt-acknowledges trapno = ground arith

-- The keyboard handler runs exactly for vector 33 and the scheduler exactly for vector 32.
handle_interrupt-dispatch :
    (trapno : ℕ)
    → (((handle_interrupt trapno).1 ≡ kbd_interrupt_handler) ↔ (trapno ≡ 33))
      × (((handle_interrupt trapno).1 ≡ thr_yeild) ↔ (trapno ≡ 32))
unfolding handle_interrupt
handle_interrupt-dispatch trapno = ground arith
