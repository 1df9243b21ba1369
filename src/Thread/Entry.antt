-- ===== src/Thread/Entry.antt =====
-- The context switch of switch.s, and where a new thread starts.
use orcas.Base.{ℕ, ◌+◌, ◌-◌, ◌≤◌, ◌≡◌, refl, arith}
use orcas.Thread.{Thread, Symbols, prepare, poke}

-- The registers that a switch saves, the stack pointer, and the address that runs next.
pub record Cpu : Type 0 where
  pub eip : ℕ
  pub esp : ℕ
  pub edi : ℕ
  pub esi : ℕ
  pub ebx : ℕ
  pub ebp : ℕ

-- `ret`
pub ret : (ℕ → ℕ) → Cpu → Cpu
ret stack cpu = record cpu { eip = stack cpu.esp; esp = cpu.esp + 4 }

-- The four pushes of `ctxSwitch` on the old stack, and the context pointer that it stores.
pub switch_out : Cpu → (ℕ → ℕ) → ℕ × (ℕ → ℕ)
switch_out cpu stack =
    let sp = cpu.esp in
    (
      sp - 16,
      poke (sp - 16) cpu.edi
          (poke (sp - 12) cpu.esi (poke (sp - 8) cpu.ebx (poke (sp - 4) cpu.ebp stack))),
    )

-- Its second half: the stack pointer from `newctx`, the four pops, and `ret`.
pub switch_in : (newctx : ℕ) → (ℕ → ℕ) → Cpu
unfolding ret
switch_in newctx stack = ret stack (record {
  eip = 0;
  esp = newctx + 16;
  edi = stack newctx;
  esi = stack (newctx + 4);
  ebx = stack (newctx + 8);
  ebp = stack (newctx + 12);
})

-- A thread that is switched out and later switched in again, with its stack untouched, goes on at
-- the return address of its call of `ctxSwitch`, with its registers and its stack as they were.
pub switch_in-switch_out :
    (cpu : Cpu) (stack : ℕ → ℕ) (o : ℕ)
    → 16 ≤ cpu.esp
    → cpu.esp ≤ o
    → let (ctx, saved) = switch_out cpu stack in
      (switch_in ctx saved ≡ ret stack cpu) × (saved o ≡ stack o)
unfolding switch_in switch_out
switch_in-switch_out cpu stack o h above = (ground arith, ground arith)

-- The first switch to a thread that `thrCreate` prepared lands in `thread_entry`, whose `ret` lands
-- in `kernStub` with the function and its argument in the places of a call, and `trapret` as the
-- address to return to.
pub prepare-starts :
    (sym : Symbols) (func args : ℕ) (t : Thread)
    → let new = prepare sym func args t in
      let first = switch_in new.ctx new.kstack in
      let second = ret new.kstack first in
      (first.eip ≡ sym.thread_entry)
      × (second.eip ≡ sym.kern_stub)
      × (new.kstack second.esp ≡ sym.trapret)
      × (new.kstack (second.esp + 4) ≡ func)
      × (new.kstack (second.esp + 8) ≡ args)
      × (second.esp ≡ new.rt)
      × (new.tf ≡ new.rt + 12)
unfolding prepare switch_in
prepare-starts sym func args t = (refl, refl, refl, refl, refl, refl, refl)
