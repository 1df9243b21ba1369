-- ===== src/Memory/Pool/Stack.antt =====
-- The free list as a stack of pages: `allocPage` pops, `freePage` pushes.
use orcas.Base.{
  ℕ, ◌+◌, ◌-◌, ◌^◌, ◌≤◌, ◌<◌, ◌≡◌, ◌≢◌, ◌⊎◌, ◌∙◌, refl, ap, ◌&&◌, ◌==◌, lt→ltb, ltb, leb,
  if◌then◌else◌, arith, u32, List, [], ◌∷◌, length,
}
use orcas.Memory.Page.{pg_size}
use orcas.Memory.Machine.{Machine, store, memset}
use orcas.Memory.Pool.{alloc_page, free_page}

-- From `p` on, `next` leads through the nodes of the list, each with its page.
abbrev FreeList : (ℕ → ℕ) → ℕ → List (ℕ × ℕ) → Type 0
FreeList ram p [] = Unit {0}
FreeList ram p ((q, a) ∷ rest) = (p ≡ q) × (ram q ≡ a) × FreeList ram (ram (u32 (q + 4))) rest

pub record IsPool (m : Machine) (nodes : List (ℕ × ℕ)) : Type 0 where
  pub chain : FreeList m.ram m.free_list nodes
  pub count : m.avail ≡ length nodes

-- A word that `freePage p addr` does not write.
abbrev Untouched : (p addr b : ℕ) → Type 0
Untouched p addr b = (b ≢ p) × (b ≢ u32 (p + 4)) × ((b < addr) ⊎ (addr + pg_size ≤ b))

abbrev AllUntouched : (p addr : ℕ) → List (ℕ × ℕ) → Type 0
AllUntouched p addr [] = Unit {0}
AllUntouched p addr ((q, a) ∷ rest) =
    Untouched p addr q × Untouched p addr (u32 (q + 4)) × AllUntouched p addr rest

-- The node lies outside the page.
abbrev Outside : (p addr : ℕ) → Type 0
Outside p addr = (p + 4 < 2 ^ 32) × ((p + 4 < addr) ⊎ (addr + pg_size ≤ p))

free_page-ram :
    (p addr : ℕ) (m : Machine)
    → Outside p addr
    → (b : ℕ)
    → (free_page p addr m).ram b ≡ (
        if b == u32 (p + 4)
        then m.free_list
        else (if leb addr b && ltb b (addr + pg_size) then 0 else if b == p then addr else m.ram b))
unfolding free_page store memset
free_page-ram p addr m out b = ground arith

free_page-state :
    (p addr : ℕ) (m : Machine)
    → ((free_page p addr m).free_list ≡ p) × ((free_page p addr m).avail ≡ m.avail + 1)
unfolding free_page store memset
free_page-state p addr m = (refl, refl)

FreeList-frame :
    (p addr : ℕ) (m : Machine)
    → Outside p addr
    → (q : ℕ) (nodes : List (ℕ × ℕ)) → FreeList m.ram q nodes
    → AllUntouched p addr nodes
    → FreeList (free_page p addr m).ram q nodes
FreeList-frame p addr m out q [] f u = tt
FreeList-frame p addr m out q ((r, a) ∷ rest) f u =
    let kept : (free_page p addr m).ram (u32 (r + 4)) ≡ m.ram (u32 (r + 4)) =
      ground (arith, free_page-ram p addr m out (u32 (r + 4))) in
    (
      f.0,
      ground (arith, free_page-ram p addr m out r),
      rw kept (FreeList-frame p addr m out (m.ram (u32 (r + 4))) rest f.2 u.2),
    )

-- What `allocPage` returns and leaves, for a pool that holds the nodes.
abbrev pub Popped : Machine → List (ℕ × ℕ) → ℕ × Machine → Type 0
Popped m [] (page, m') = (page ≡ m.brk) × (m'.brk ≡ u32 (m.brk + pg_size)) × IsPool m' []
Popped m ((q, a) ∷ rest) (page, m') = (page ≡ a) × (m'.brk ≡ m.brk) × IsPool m' rest

alloc_page-head :
    (m : Machine)
    → 0 < m.avail
    → alloc_page m ≡ (
      m.ram m.free_list,
      record m { free_list = m.ram (u32 (m.free_list + 4)); avail = m.avail - 1 },
    )
unfolding alloc_page
alloc_page-head m h = rw (lt→ltb 0 m.avail h)

-- On a non-empty list `allocPage` returns the page of the first node, which it takes off, and
-- leaves the break alone; on an empty list it returns the break and moves it on by a page.
pub alloc_page-pops :
    (m : Machine) (nodes : List (ℕ × ℕ)) → IsPool m nodes → Popped m nodes (alloc_page m)
unfolding alloc_page
alloc_page-pops m [] h = ground arith
alloc_page-pops m ((q, a) ∷ rest) h =
    let next : FreeList m.ram (m.ram (u32 (m.free_list + 4))) rest = rw (h.chain.0) (h.chain.2) in
    rw (alloc_page-head m (omega (arith, h.count))) (
      ap m.ram h.chain.0 ∙ h.chain.1,
      refl,
      record { chain = next; count = omega (arith, h.count) },
    )

-- `freePage` puts the page, cleared, on top of the list, if the node that it happens to use lies
-- outside the page and outside the list.
pub free_page-pushes :
    (p addr b : ℕ) (m : Machine) (nodes : List (ℕ × ℕ))
    → IsPool m nodes
    → addr ≤ b
    → b < addr + pg_size
    → Outside p addr
    → AllUntouched p addr nodes
    → IsPool (free_page p addr m) ((p, addr) ∷ nodes) × ((free_page p addr m).ram b ≡ 0)
free_page-pushes p addr b m nodes h lo hi out u =
    let top : (free_page p addr m).ram p ≡ addr = ground (arith, free_page-ram p addr m out p) in
    let link : (free_page p addr m).ram (u32 (p + 4)) ≡ m.free_list =
      ground (arith, free_page-ram p addr m out (u32 (p + 4))) in
    (
      record {
        chain = (
          (free_page-state p addr m).0,
          top,
          rw link (FreeList-frame p addr m out m.free_list nodes h.chain u),
        );
        count = omega (arith, h.count, free_page-state p addr m);
      },
      ground (arith, free_page-ram p addr m out b),
    )

-- If the node happens to lie in the page, clearing the page clears the node's `addr`, and the next
-- `allocPage` hands out address 0.
pub free_page-clobbered :
    (p addr : ℕ) (m : Machine)
    → addr ≤ p
    → p + 4 < addr + pg_size
    → addr + pg_size ≤ 2 ^ 32
    → (alloc_page (free_page p addr m)).0 ≡ 0
unfolding alloc_page free_page store memset
free_page-clobbered p addr m lo hi top = ground arith
