-- ===== src/Thread.antt =====
-- thread.c, thread.h and switch.s: the thread table, its scheduler, and the waits on conditions.
-- A thread is named by its index in `thrqueue`; pointers into its stack are offsets from the start
-- of `kstack`.
pub mod Table
pub mod Entry
pub mod Sched
pub mod Wake
pub mod Mutex
pub mod Semaphore
mod Tests
use orcas.Base.{
  ℕ, zero, suc, ◌+◌, ◌-◌, ◌*◌, ◌%◌, ◌^◌, ◌==◌, ltb, leb, gt_int, if◌then◌else◌, ◌||◌, ◌&&◌, u32,
  Bool, true, false, Option, none, some,
}

abbrev pub thr_que_size : ℕ
thr_que_size = 256

abbrev kstack_size : ℕ
kstack_size = 1024

abbrev pub default_counter : ℕ
default_counter = 100

-- THR_UNUSED and the other states
pub data Status : Type 0 where
  unused ready running sleeping zombie stop : Status

abbrev pub is_ready : Status → Bool
is_ready ready = true
is_ready _ = false

abbrev is_sleeping : Status → Bool
is_sleeping sleeping = true
is_sleeping _ = false

-- The test of `thrAlloc`.
abbrev pub is_free : Status → Bool
is_free unused = true
is_free stop = true
is_free _ = false

-- `struct thread`; `kstack` gives the word at each offset, `counter` is an `int` as its 32 bits.
pub record Thread : Type 0 where
  pub tid : ℕ
  pub status : Status
  pub counter : ℕ
  pub tf : ℕ
  pub rt : ℕ
  pub st : ℕ
  pub ctx : ℕ
  pub kstack : ℕ → ℕ
  pub cv : ℕ

abbrev pub Threads : Type 0
Threads = ℕ → Thread

abbrev pub put : ℕ → Thread → Threads → Threads
put i t threads j = if j == i then t else threads j

-- `thrAlloc`, from index `i` with `left` rounds left.
alloc_loop : (left i : ℕ) → Threads → Option ℕ
alloc_loop zero i threads = none
alloc_loop (suc left) i threads =
    let rest = alloc_loop left (i + 1) threads in
    if is_free (threads i).status then some i else rest

pub thr_alloc : Threads → Option ℕ
thr_alloc threads = alloc_loop thr_que_size 0 threads

-- The sizes of `struct trapframe`, `runtime`, `stub` and `context`.
abbrev trapframe_size : ℕ
trapframe_size = 76

abbrev runtime_size : ℕ
runtime_size = 12

abbrev stub_size : ℕ
stub_size = 4

abbrev context_size : ℕ
context_size = 20

-- The addresses of `trapret`, `kernStub` and `thread_entry`, which the linker chooses.
pub record Symbols : Type 0 where
  pub trapret : ℕ
  pub kern_stub : ℕ
  pub thread_entry : ℕ

abbrev pub poke : (offset word : ℕ) → (ℕ → ℕ) → ℕ → ℕ
poke offset word stack o = if o == offset then word else stack o

-- The five words of a context, cleared.
abbrev clear_context : (ctx : ℕ) → (ℕ → ℕ) → ℕ → ℕ
clear_context ctx stack o = if leb ctx o && ltb o (ctx + context_size) then 0 else stack o

-- What `thrCreate` makes of the entry that it took.
pub prepare : Symbols → (func args : ℕ) → Thread → Thread
prepare sym func args t =
    let tf = kstack_size - trapframe_size in
    let rt = tf - runtime_size in
    let st = rt - stub_size in
    let ctx = st - context_size in
    let s1 = poke rt sym.trapret t.kstack in
    let s2 = poke (rt + 4) func s1 in
    let s3 = poke (rt + 8) args s2 in
    let s4 = poke st sym.kern_stub s3 in
    let s5 = clear_context ctx s4 in
    let s6 = poke (ctx + 16) sym.thread_entry s5 in
    record t {
      status = ready;
      counter = default_counter;
      tf = tf;
      rt = rt;
      st = st;
      ctx = ctx;
      kstack = s6;
    }

-- The tid that is returned, -1 as 32 bits where no entry is free, and the table.
pub thr_create : Symbols → (func args : ℕ) → Threads → ℕ × Threads
unfolding prepare
thr_create sym func args threads = elim (thr_alloc threads) [
  | none ↦ (0xffffffff, threads)
  | some i ↦ ((threads i).tid, put i (prepare sym func args (threads i)) threads)
]

-- The loop of `thrInit` over the table.
pub thr_init : Threads → Threads
thr_init threads i =
    if ltb i thr_que_size then record (threads i) { tid = i; status = unused } else threads i

-- The `for` of `thrSched`, with the rounds left: `t` is the choice so far, and what it was before
-- the loop where no thread is chosen.
pick_loop : (left i maxp t : ℕ) → Threads → ℕ
pick_loop zero i maxp t threads = t
pick_loop (suc left) i maxp t threads =
    let better = is_ready (threads i).status && gt_int (threads i).counter maxp in
    pick_loop left (i + 1) (if better then (threads i).counter else maxp) (if better then i else t)
      threads

pub pick : (t : ℕ) → Threads → ℕ
pick t threads = pick_loop thr_que_size 0 0 t threads

-- One round of `thrSched` up to its context switch: the thread that runs next, and the table.
pub thr_sched : (t : ℕ) → Threads → ℕ × Threads
thr_sched t threads =
    let next = pick t threads in
    (next, put next (record (threads next) { status = running }) threads)

-- `current` is the index of `thr_current`.
pub thr_yeild : (current : ℕ) → Threads → Threads
thr_yeild current threads =
    let t = threads current in
    put current (record t { status = ready; counter = u32 (t.counter + 0xffffffff) }) threads

pub thr_exit : (current : ℕ) → Threads → Threads
thr_exit current threads = put current (record (threads current) { status = zombie }) threads

pub thr_kill : (tid : ℕ) → Threads → Threads
thr_kill tid threads = put tid (record (threads tid) { status = zombie }) threads

-- The stores of `thrCondWait` before it gives up the processor.
pub cond_sleep : (current cv : ℕ) → Threads → Threads
cond_sleep current cv threads =
    put current (record (threads current) { cv = cv; status = sleeping }) threads

abbrev pub waits_on : (cv : ℕ) → Thread → Bool
waits_on cv t = is_sleeping t.status && t.cv == cv

-- The loops of `thrCondSignal`, `thrCondBroadcast` and `thrSemUp`, with the rounds left.
signal_loop : (left i cv : ℕ) → Threads → Threads
signal_loop zero i cv threads = threads
signal_loop (suc left) i cv threads =
    let rest = signal_loop left (i + 1) cv threads in
    if waits_on cv (threads i) then put i (record (threads i) { status = ready }) threads else rest

pub thr_cond_signal : (cv : ℕ) → Threads → Threads
thr_cond_signal cv threads = signal_loop (thr_que_size - 1) 1 cv threads

broadcast_loop : (left i cv : ℕ) → Threads → Threads
broadcast_loop zero i cv threads = threads
broadcast_loop (suc left) i cv threads = broadcast_loop left (i + 1) cv (
    if waits_on cv (threads i)
    then put i (record (threads i) { status = ready }) threads
    else threads)

pub thr_cond_broadcast : (cv : ℕ) → Threads → Threads
thr_cond_broadcast cv threads = broadcast_loop (thr_que_size - 1) 1 cv threads

wake_loop : (left i cv : ℕ) → Threads → Threads
wake_loop zero i cv threads = threads
wake_loop (suc left) i cv threads = wake_loop left (i + 1) cv (
    if waits_on cv (threads i)
    then put i (record (threads i) { status = ready; cv = 0 }) threads
    else threads)

-- `sem` is the address of the semaphore, which its waiters carry as `cv`; `count` is its `int`.
pub thr_sem_up : (sem count : ℕ) → Threads → ℕ × Threads
thr_sem_up sem count threads = (u32 (count + 1), wake_loop thr_que_size 0 sem threads)
