-- ===== src/Memory/Heap/Grow.antt =====
-- How the kernel heap grows.
use orcas.Base.{
  ℕ, zero, suc, ◌+◌, ◌-◌, ◌*◌, ◌/◌, ◌^◌, ◌≤◌, ◌<◌, ◌≡◌, ◌∙◌, refl, sym, ap, u32, arith, some,
  lt→ltb, le→ltb_false,
}
use orcas.Memory.Page.{pg_size, kern_size, pg_up_bound, pg_up_bound-eq}
use orcas.Memory.Machine.{Machine}
use orcas.Memory.Pool.{alloc_page, alloc_page-brk, alloc_page-keeps, ram-alloc_page}
use orcas.Memory.Heap.{vmalloc_loop, vmalloc, sbrk}
use orcas.Memory.Kernel.{kmem_init}
use orcas.Memory.Kernel.Maps.{kmem_init-maps}

-- `m'` differs from `m` in the break, which is `grown` bytes higher.
record Grown (grown : ℕ) (m m' : Machine) : Type 0 where
  pub none_free : m'.avail ≡ 0
  pub brk_up : m'.brk ≡ m.brk + grown
  pub same_ram : m'.ram ≡ m.ram
  pub same_kmsize : m'.kmsize ≡ m.kmsize
  pub same_kpgdir : m'.kpgdir ≡ m.kpgdir

module _ (newsize : ℕ) where
  vmalloc_loop-stop :
      (fuel up : ℕ) (m : Machine) → newsize ≤ up → vmalloc_loop (suc fuel) up newsize m ≡ some m
  unfolding vmalloc_loop
  vmalloc_loop-stop fuel up m h = rw (le→ltb_false up newsize h, vmalloc_loop)

  vmalloc_loop-step :
      (fuel up : ℕ) (m : Machine)
      → up < newsize
      → vmalloc_loop (suc fuel) up newsize m
        ≡ vmalloc_loop fuel (u32 (up + pg_size)) newsize (alloc_page m).1
  unfolding vmalloc_loop
  vmalloc_loop-step fuel up m h = rw (lt→ltb up newsize h, vmalloc_loop)

  -- The loop takes exactly `n` pages, if `n` is the number of pages that are missing.
  vmalloc_loop-Grown :
      (n fuel up : ℕ) (m : Machine)
      → n < fuel
      → m.avail ≡ 0
      → newsize ≤ up + 4096 * n
      → (0 < n → up + 4096 * n < newsize + 4096)
      → up + 4096 * n < 2 ^ 32
      → m.brk + 4096 * n < 2 ^ 32
      → (m' : Machine) × (vmalloc_loop fuel up newsize m ≡ some m') × Grown (4096 * n) m m'
  vmalloc_loop-Grown n zero up m lt a c t u b = absurd (omega arith)
  vmalloc_loop-Grown zero (suc fuel) up m lt a c t u b = (
    m,
    vmalloc_loop-stop fuel up m (omega arith),
    record {
      none_free = a;
      brk_up = omega arith;
      same_ram = refl;
      same_kmsize = refl;
      same_kpgdir = refl;
    },
  )
  vmalloc_loop-Grown (suc n) (suc fuel) up m lt a c t u b =
      let tight : up + 4096 * suc n < newsize + 4096 = t (omega arith) in
      let next = (alloc_page m).1 in
      let (m', run, g) =
        vmalloc_loop-Grown n fuel (u32 (up + 4096)) next (omega arith) (alloc_page-brk m a).2
          (omega arith) (λ pos. omega arith) (omega arith) (omega (arith, alloc_page-brk m a)) in
      (
        m',
        vmalloc_loop-step fuel up m (omega arith) ∙ run,
        record {
          none_free = g.none_free;
          brk_up = omega (arith, g.brk_up, alloc_page-brk m a);
          same_ram = g.same_ram ∙ ram-alloc_page m;
          same_kmsize = g.same_kmsize ∙ (alloc_page-keeps m).0;
          same_kpgdir = g.same_kpgdir ∙ (alloc_page-keeps m).1;
        },
      )

sbrk-loop :
    (fuel size : ℕ) (m m' : Machine)
    → vmalloc_loop fuel (pg_up_bound m.kmsize) (u32 (m.kmsize + size)) m ≡ some m'
    → sbrk fuel size m ≡ some (m.kmsize, record m' { kmsize = u32 (m'.kmsize + size) })
unfolding sbrk vmalloc
sbrk-loop fuel size m m' run = rw (run, sbrk, vmalloc)

-- With no freed page, room below 2 ^ 32, and fuel for the pages, `sbrk` returns the end of the heap
-- that was, moves it on by `size`, and moves the break by the pages between the two page boundaries
-- above; memory and page directory stay.
pub sbrk-grows :
    (fuel size : ℕ) (m : Machine)
    → size / pg_size + 1 < fuel
    → m.avail ≡ 0
    → m.kmsize + size + 8192 < 2 ^ 32
    → m.brk + size + 4096 < 2 ^ 32
    → (m' : Machine) × (sbrk fuel size m ≡ some (m.kmsize, m'))
      × (m'.kmsize ≡ m.kmsize + size)
      × (m'.brk + pg_up_bound m.kmsize ≡ m.brk + pg_up_bound m'.kmsize)
      × (m'.ram ≡ m.ram)
      × (m'.kpgdir ≡ m.kpgdir)
      × (m'.avail ≡ 0)
sbrk-grows fuel size m enough a fits room =
    let new : ℕ = u32 (m.kmsize + size) in
    let n : ℕ = (pg_up_bound new - pg_up_bound m.kmsize) / 4096 in
    let (m', run, g) =
      vmalloc_loop-Grown new n fuel (pg_up_bound m.kmsize) m
        (omega (arith, pg_up_bound-eq m.kmsize, pg_up_bound-eq new)) a
        (omega (arith, pg_up_bound-eq m.kmsize, pg_up_bound-eq new))
        (λ pos. omega (arith, pg_up_bound-eq m.kmsize, pg_up_bound-eq new))
        (omega (arith, pg_up_bound-eq m.kmsize, pg_up_bound-eq new))
        (omega (arith, pg_up_bound-eq m.kmsize, pg_up_bound-eq new)) in
    (
      record m' { kmsize = u32 (m'.kmsize + size) },
      sbrk-loop fuel size m m' run,
      omega (arith, g.same_kmsize),
      omega (
        arith,
        g.brk_up,
        g.same_kmsize,
        pg_up_bound-eq m.kmsize,
        pg_up_bound-eq new,
        pg_up_bound-eq (u32 (m'.kmsize + size)),
      ),
      g.same_ram,
      g.same_kpgdir,
      g.none_free,
    )

-- After `kmemInit` the first `sbrk` returns the address of the kernel's page directory.
pub sbrk-kmem_init :
    (fuel kernheap grow size : ℕ) (m : Machine)
    → 65536 < fuel
    → kernheap + 4096 + kern_size + 4096 < 2 ^ 32
    → size / pg_size + 1 < grow
    → kernheap + 2 * kern_size + size < 2 ^ 32
    → (m1 : Machine) × (kmem_init fuel kernheap m ≡ some m1)
      × ((m2 : Machine) × (sbrk grow size m1 ≡ some (m1.kpgdir, m2)) × (m2.kpgdir ≡ m1.kpgdir))
sbrk-kmem_init fuel kernheap grow size m enough fits more room =
    let (m1, run, k) = kmem_init-maps fuel kernheap m enough fits in
    let grows =
      sbrk-grows grow size m1 more k.none_free
        (omega (arith, k.kmsize_start, pg_up_bound-eq kernheap))
        (omega (arith, k.kpgdir_start, k.bounded, pg_up_bound-eq kernheap)) in
    (
      m1,
      run,
      (
        grows.0,
        grows.1 ∙ ap (λ (a : ℕ). some (a, grows.0)) (k.kmsize_start ∙ sym k.kpgdir_start),
        grows.5,
      ),
    )
