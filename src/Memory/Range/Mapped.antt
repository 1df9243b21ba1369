-- ===== src/Memory/Range/Mapped.antt =====
-- `rangemap` over a pool that only moves the break: it ends, and maps the range page by page.
use orcas.Base.{
  ℕ, zero, suc, ◌+◌, ◌-◌, ◌*◌, ◌/◌, ◌%◌, ◌^◌, ◌≤◌, ◌<◌, ◌≡◌, ◌∙◌, refl, ◌&&◌, ltb, leb,
  if◌then◌else◌, u32, arith, some, lt→ltb, le→ltb_false,
}
use orcas.Memory.Page.{pg_size, pg_low_bound-eq}
use orcas.Memory.Machine.{Machine, slot}
use orcas.Memory.Pool.{alloc_page-brk}
use orcas.Memory.Table.{translate, map}
use orcas.Memory.Table.Entry.{IsDirectory}
use orcas.Memory.Table.Map.{IsReady, pde-map, map-pool}
use orcas.Memory.Table.Translate.{map-IsDirectory, map-translate}
use orcas.Memory.Range.{range_loop, rangemap}

-- No page has been freed: the directory and its tables lie below the break.
pub record IsBump (pgd : ℕ) (m : Machine) : Type 0 where
  pub none_free : m.avail ≡ 0
  pub aligned : m.brk % 4096 ≡ 0
  pub pgd_below : pgd < m.brk
  pub below :
      (i : ℕ) → i < 1024 → m.ram (slot pgd i) % 2 ≡ 1 → m.ram (slot pgd i) / 4096 * 4096 < m.brk

module _ {pgd : ℕ} {m : Machine} (d : IsDirectory pgd m.ram) (b : IsBump pgd m)
    (room : m.brk + 4096 < 2 ^ 32) where
  IsBump-IsReady : (va : ℕ) → IsReady pgd va m
  IsBump-IsReady va even = record {
    aligned = omega (arith, alloc_page-brk m b.none_free, b.aligned);
    in_reach = omega (arith, alloc_page-brk m b.none_free);
    ne_pgd = omega (arith, alloc_page-brk m b.none_free, b.pgd_below);
    ne_table = λ i hi odd. omega (arith, alloc_page-brk m b.none_free, b.below i hi odd, b.aligned);
  }

  module _ (pa va flags : ℕ) (hpa : pa < 2 ^ 32) (hva : va < 2 ^ 32) (hf : flags < pg_size) where
    map-IsBump :
        IsBump pgd (map pgd pa va flags m).1 × ((map pgd pa va flags m).1.brk ≤ m.brk + 4096)
    map-IsBump = (
      record {
        none_free = omega (arith, map-pool pgd pa va flags m hva b.none_free);
        aligned = ground (arith, map-pool pgd pa va flags m hva b.none_free, b.aligned);
        pgd_below = ground (arith, map-pool pgd pa va flags m hva b.none_free, b.pgd_below);
        below = λ i hi odd. ground (
          arith,
          map-pool pgd pa va flags m hva b.none_free,
          pde-map pgd pa va flags m d hpa hva hf (IsBump-IsReady va) i hi,
          alloc_page-brk m b.none_free,
          b.below i hi,
          b.aligned,
        );
      },
      ground (arith, map-pool pgd pa va flags m hva b.none_free),
    )

-- `m'` maps the `n` pages from `vlb` on to the frames from `plb` on, and the rest as `m` does.
pub record Mapped (pgd plb vlb n : ℕ) (m m' : Machine) : Type 0 where
  pub directory : IsDirectory pgd m'.ram
  pub bump : IsBump pgd m'
  pub grown : m'.brk ≤ m.brk + 4096 * n
  pub same_kmsize : m'.kmsize ≡ m.kmsize
  pub same_kpgdir : m'.kpgdir ≡ m.kpgdir
  pub maps :
      (va : ℕ)
      → va < 2 ^ 32
      → translate pgd va m'
        ≡ (if leb vlb va && ltb va (vlb + 4096 * n) then plb + (va - vlb) else translate pgd va m)

-- The range is `n` pages long, and ends below the top of the address space.
pub record Fits (n plb top vlb : ℕ) (m : Machine) : Type 0 where
  pub plb_aligned : plb % 4096 ≡ 0
  pub vlb_aligned : vlb % 4096 ≡ 0
  pub covers : top ≤ plb + 4096 * n
  pub tight : plb + 4096 * n < top + 4096
  pub plb_room : plb + 4096 * n < 2 ^ 32
  pub vlb_room : vlb + 4096 * n < 2 ^ 32
  pub brk_room : m.brk + 4096 * n < 2 ^ 32

module _ (pgd top flags : ℕ) (hf : flags < pg_size) where
  range_loop-stop :
      (fuel plb vlb : ℕ) (m : Machine)
      → top ≤ plb
      → range_loop (suc fuel) pgd plb top vlb flags m ≡ some m
  unfolding range_loop
  range_loop-stop fuel plb vlb m h = rw (le→ltb_false plb top h, range_loop)

  range_loop-step :
      (fuel plb vlb : ℕ) (m : Machine)
      → plb < top
      → range_loop (suc fuel) pgd plb top vlb flags m
        ≡ range_loop fuel pgd
            (u32 (plb + pg_size))
            top
            (u32 (vlb + pg_size))
            flags
            (map pgd plb vlb flags m).1
  unfolding range_loop
  range_loop-step fuel plb vlb m h = rw (lt→ltb plb top h, range_loop)

  -- The loop ends with every page of the range mapped.
  pub range_loop-Mapped :
      (n fuel plb vlb : ℕ) (m : Machine)
      → n < fuel
      → IsDirectory pgd m.ram
      → IsBump pgd m
      → Fits n plb top vlb m
      → (m' : Machine) × (range_loop fuel pgd plb top vlb flags m ≡ some m')
        × Mapped pgd plb vlb n m m'
  range_loop-Mapped n zero plb vlb m lt d b fits = absurd (omega arith)
  range_loop-Mapped zero (suc fuel) plb vlb m lt d b fits = (
    m,
    range_loop-stop fuel plb vlb m (omega (arith, fits.covers)),
    record {
      directory = d;
      bump = b;
      grown = omega arith;
      same_kmsize = refl;
      same_kpgdir = refl;
      maps = λ va h. ground arith;
    },
  )
  range_loop-Mapped (suc n) (suc fuel) plb vlb m lt d b fits =
      let room : m.brk + 4096 < 2 ^ 32 = omega (arith, fits.brk_room) in
      let hp : plb < 2 ^ 32 = omega (arith, fits.plb_room) in
      let hv : vlb < 2 ^ 32 = omega (arith, fits.vlb_room) in
      let next = (map pgd plb vlb flags m).1 in
      let step = map-IsBump d b room plb vlb flags hp hv hf in
      let (m', run, rest) =
        range_loop-Mapped n fuel (u32 (plb + 4096)) (u32 (vlb + 4096)) next (omega arith)
          (map-IsDirectory pgd plb vlb flags m d hp hv hf (IsBump-IsReady d b room vlb)) step.0
          (omega (arith, fits, step.1)) in
      (
        m',
        range_loop-step fuel plb vlb m (omega (arith, fits.tight)) ∙ run,
        record {
          directory = rest.directory;
          bump = rest.bump;
          grown = omega (arith, rest.grown, step.1);
          same_kmsize = rest.same_kmsize ∙ (map-pool pgd plb vlb flags m hv b.none_free).2;
          same_kpgdir = rest.same_kpgdir ∙ (map-pool pgd plb vlb flags m hv b.none_free).3;
          maps = λ va h. ground (
            arith,
            rest.maps va h,
            fits,
            map-translate pgd plb vlb flags m d hp hv hf (IsBump-IsReady d b room vlb) va h,
          );
        },
      )

-- `rangemap` is its loop, from the page boundaries below its arguments.
pub rangemap-loop :
    (fuel pgd pa va size flags : ℕ) (m : Machine)
    → pa < 2 ^ 32
    → va < 2 ^ 32
    → rangemap fuel pgd pa va size flags m
      ≡ range_loop fuel pgd
          (pa / 4096 * 4096)
          (u32 (pa / 4096 * 4096 + size))
          (va / 4096 * 4096)
          flags
          m
unfolding rangemap
rangemap-loop fuel pgd pa va size flags m hp hv = rw (pg_low_bound-eq pa hp, pg_low_bound-eq va hv)
