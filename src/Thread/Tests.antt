-- ===== src/Thread/Tests.antt =====
-- The thread table and a switch at concrete values.
use orcas.Base.{◌+◌, ℕ, ◌≡◌, ◌<◌, ◌⊎◌, refl, arith, true, if◌then◌else◌, ◌==◌}
use orcas.Thread.{
  Threads, unused, ready, running, sleeping, Symbols, thr_create, thr_init, prepare, thr_sched,
  thr_yeild, thr_exit, thr_kill, cond_sleep, thr_cond_signal, is_free, thr_que_size,
  default_counter,
}
use orcas.Thread.Table.{AllTaken, thr_create-entry}
use orcas.Thread.Entry.{Cpu, ret, switch_out, switch_in, switch_in-switch_out, prepare-starts}
use orcas.Thread.Sched.{Choice, NoneAbove, rank, thr_sched-Choice, thr_sched-revives}
use orcas.Thread.Wake.{Signals, thr_cond_signal-Signals}

-- All entries as at boot, before `thrInit`.
abbrev fresh : Threads
fresh i = record {
  tid = i;
  status = unused;
  counter = 0;
  tf = 0;
  rt = 0;
  st = 0;
  ctx = 0;
  kstack = λ _. 0;
  cv = 0;
}

abbrev symbols : Symbols
symbols = record { trapret = 0x100; kern_stub = 0x200; thread_entry = 0x300 }

thr_create-entry_example :
    let (tid, after) = thr_create symbols 0x400 7 fresh in
    (AllTaken 0 thr_que_size fresh × (tid ≡ 0xffffffff) × (after ≡ fresh))
    ⊎ ((tid < thr_que_size)
        × (is_free (fresh tid).status ≡ true)
        × AllTaken 0 tid fresh
        × ((after tid).status ≡ ready)
        × ((after tid).counter ≡ default_counter)
        × ((after tid).tid ≡ tid)
        × ((j : ℕ) → after j ≡ (if j == tid then after j else fresh j)))
thr_create-entry_example = thr_create-entry symbols 0x400 7 fresh (λ j. refl)

abbrev cpu : Cpu
cpu = record { eip = 0x500; esp = 1000; edi = 1; esi = 2; ebx = 3; ebp = 4 }

switch_in-switch_out_example :
    (switch_in (switch_out cpu (λ a. a)).0 (switch_out cpu (λ a. a)).1 ≡ ret (λ a. a) cpu)
    × ((switch_out cpu (λ a. a)).1 1004 ≡ 1004)
switch_in-switch_out_example = switch_in-switch_out cpu (λ a. a) 1004 (omega arith) (omega arith)

prepare-starts_test :
    let new = prepare symbols 0x400 7 (fresh 2) in
    let first = switch_in new.ctx new.kstack in
    let second = ret new.kstack first in
    (first.eip ≡ 0x300)
    × (second.eip ≡ 0x200)
    × (new.kstack second.esp ≡ 0x100)
    × (new.kstack (second.esp + 4) ≡ 0x400)
    × (new.kstack (second.esp + 8) ≡ 7)
    × (second.esp ≡ new.rt)
    × (new.tf ≡ new.rt + 12)
prepare-starts_test = prepare-starts symbols 0x400 7 (fresh 2)

thr_sched-Choice_example :
    let (next, after) = thr_sched 0 fresh in
    Choice 0 thr_que_size 0 0 fresh next
    × ((j : ℕ)
        → after j ≡ (if j == next then record (fresh next) { status = running } else fresh j))
thr_sched-Choice_example = thr_sched-Choice 0 fresh (λ j. omega arith)

none_ready : NoneAbove 0 thr_que_size 0 fresh
unfolding rank
none_ready j p q = omega arith

thr_sched-revives_test :
    let (next, after) = thr_sched 3 fresh in (next ≡ 3) × ((after next).status ≡ running)
thr_sched-revives_test = thr_sched-revives 3 fresh (λ j. omega arith) none_ready

thr_cond_signal-Signals_example : Signals 1 thr_que_size 8 fresh (thr_cond_signal 8 fresh)
thr_cond_signal-Signals_example = thr_cond_signal-Signals 8 fresh

-- A counter of 0 wraps to -1 when its thread gives the processor up.
yeilded : (thr_yeild 2 fresh 2).counter ≡ 0xffffffff
unfolding thr_yeild
yeilded = refl

slept : (cond_sleep 2 8 fresh 2).status ≡ sleeping
unfolding cond_sleep
slept = refl

exited : thr_exit 2 fresh ≡ thr_kill 2 fresh
unfolding thr_exit thr_kill
exited = refl

initialised : (thr_init fresh 300) ≡ fresh 300
unfolding thr_init
initialised = refl
