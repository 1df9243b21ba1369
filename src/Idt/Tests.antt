-- ===== src/Idt/Tests.antt =====
-- The interrupt table with the vectors 16 bytes apart.
use orcas.Base.{ℕ, ◌≡◌, ◌+◌, ◌*◌, ◌/◌, arith, true, false, ltb, if◌then◌else◌}
use orcas.Idt.{Gate, idt_init, handle_interrupt, it_interrupt}
use orcas.Idt.Gates.{target, idt_init-gates}
use orcas.Idt.Dispatch.{acknowledged, handle_interrupt-acknowledges}

abbrev no_gates : ℕ → Gate
no_gates _ = record { offsetlow16 = 0; selector = 0; reserved = 0; privilege = 0; offsethigh16 = 0 }

abbrev vectors : ℕ → ℕ
vectors j = if ltb j 256 then 0x100000 + 16 * j else 0

idt_init-gates_test :
    (target ((idt_init vectors no_gates).0 3) ≡ 0x100030)
    × (((idt_init vectors no_gates).0 3).selector / 8 ≡ 1)
    × (((idt_init vectors no_gates).0 3).privilege ≡ it_interrupt)
    × ((idt_init vectors no_gates).0 256 ≡ no_gates 256)
idt_init-gates_test =
    idt_init-gates vectors no_gates 3 256 (omega arith) (omega arith) (λ j. ground arith)

handle_interrupt-acknowledges_test :
    (acknowledged 0x20 (handle_interrupt 0x21).0 ≡ true)
    × (acknowledged 0xa0 (handle_interrupt 0x21).0 ≡ false)
handle_interrupt-acknowledges_test = handle_interrupt-acknowledges 0x21

-- A system call is acknowledged at both controllers, though neither raised it.
syscall_acknowledged : acknowledged 0xa0 (handle_interrupt 0x80).0 ≡ true
syscall_acknowledged = (handle_interrupt-acknowledges 0x80).1
