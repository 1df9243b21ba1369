-- ===== src/Memory/Table/Entry.antt =====
-- What `map` does to the entries of a page directory, by directory and table index.
use orcas.Base.{
  ℕ, ◌+◌, ◌*◌, ◌/◌, ◌%◌, ◌^◌, ◌≤◌, ◌<◌, ◌≡◌, ◌≢◌, ◌∙◌, ap, false, ◌&&◌, ◌==◌, if◌then◌else◌, arith,
  ltb, leb, ==_ne,
}
use native.Mathlib.Decide.{ℕ_discrete}
use orcas.Memory.Machine.{slot, slot-eq, slot-page, slot-index}

-- The table entry at directory index `i` and table index `j`, or 0.
abbrev pub entry : (ℕ → ℕ) → (pgd i j : ℕ) → ℕ
entry ram pgd i j =
    let pde = ram (slot pgd i) in
    if pde % 2 == 0
    then 0
    else (let pte = ram (slot (pde / 4096 * 4096) j) in if pte % 2 == 0 then 0 else pte)

-- A directory: present entries are words that name pages apart from it and from each other.
pub record IsDirectory (pgd : ℕ) (ram : ℕ → ℕ) : Type 0 where
  pub aligned : pgd % 4096 ≡ 0
  pub in_reach : pgd + 4096 ≤ 2 ^ 32
  pub words : (i : ℕ) → i < 1024 → ram (slot pgd i) < 2 ^ 32
  pub apart : (i : ℕ) → i < 1024 → ram (slot pgd i) % 2 ≡ 1 → ram (slot pgd i) / 4096 ≢ pgd / 4096
  pub distinct :
      (i j : ℕ)
      → i < 1024
      → j < 1024
      → ram (slot pgd i) % 2 ≡ 1
      → ram (slot pgd j) % 2 ≡ 1
      → ram (slot pgd i) / 4096 ≡ ram (slot pgd j) / 4096
      → i ≡ j

-- A page that is neither the directory nor one of its tables.
pub record IsFresh (pgd page : ℕ) (ram : ℕ → ℕ) : Type 0 where
  pub aligned : page % 4096 ≡ 0
  pub in_reach : page + 4096 ≤ 2 ^ 32
  pub ne_pgd : page ≢ pgd
  pub ne_table :
      (i : ℕ) → i < 1024 → ram (slot pgd i) % 2 ≡ 1 → ram (slot pgd i) / 4096 ≢ page / 4096

-- Memory after a store into the table of a present entry.
abbrev pub with_entry : (ℕ → ℕ) → (pgd i j pte : ℕ) → ℕ → ℕ
with_entry ram pgd i j pte a =
    if a == slot (ram (slot pgd i) / 4096 * 4096) j
    then pte
    else (if a == slot pgd i then ram (slot pgd i) else ram a)

-- Memory after a new table is cleared, entered in the directory, and stored into.
abbrev pub with_table : (ℕ → ℕ) → (pgd page i j pde pte : ℕ) → ℕ → ℕ
with_table ram pgd page i j pde pte a =
    if a == slot page j
    then pte
    else (if a == slot pgd i then pde else (if leb page a && ltb a (page + 4096) then 0 else ram a))

-- The directory and the tables are aligned pages, so a slot of one is no slot of another.
slot-ne :
    (p q i j : ℕ)
    → p % 4096 ≡ 0
    → q % 4096 ≡ 0
    → p + 4096 ≤ 2 ^ 32
    → q + 4096 ≤ 2 ^ 32
    → i < 1024
    → j < 1024
    → p / 4096 ≢ q / 4096
    → (slot p i == slot q j) ≡ false
slot-ne p q i j ap aq rp rq hi hj ne =
    ==_ne (slot p i) (slot q j)
      (λ e. ne (omega (arith, slot-page p i ap rp hi, slot-page q j aq rq hj)))

slot-same :
    (p i j : ℕ)
    → p % 4096 ≡ 0
    → p + 4096 ≤ 2 ^ 32
    → i < 1024
    → j < 1024
    → (slot p i == slot p j) ≡ (i == j)
slot-same p i j a r hi hj = ground (arith, slot-index p i j a r hi hj)

module _ {pgd : ℕ} {ram : ℕ → ℕ} (d : IsDirectory pgd ram) (i j pte : ℕ) (hi : i < 1024)
    (hj : j < 1024) (present : pte % 2 ≡ 1) where
  abbrev table : ℕ → ℕ
  table k = ram (slot pgd k) / 4096 * 4096

  table_reach : (k : ℕ) → k < 1024 → (table k % 4096 ≡ 0) × (table k + 4096 ≤ 2 ^ 32)
  table_reach k hk = omega (arith, d.words k hk)

  module _ (k l : ℕ) (hk : k < 1024) (hl : l < 1024) where
    table-ne-pgd : ram (slot pgd k) % 2 ≡ 1 → (slot (table k) l == slot pgd i) ≡ false
    table-ne-pgd odd =
        slot-ne (table k) pgd l i (table_reach k hk).0 d.aligned (table_reach k hk).1 d.in_reach hl
          hi (λ e. d.apart k hk odd (omega arith))

    pgd-ne-table : ram (slot pgd i) % 2 ≡ 1 → (slot pgd k == slot (table i) j) ≡ false
    pgd-ne-table odd =
        slot-ne pgd (table i) k j d.aligned (table_reach i hi).0 d.in_reach (table_reach i hi).1 hk
          hj (λ e. d.apart i hi odd (omega arith))

    table-table :
        ram (slot pgd i) % 2 ≡ 1
        → ram (slot pgd k) % 2 ≡ 1
        → (slot (table k) l == slot (table i) j) ≡ (k == i && l == j)
    table-table odd odd_k = elim (ℕ_discrete k i) [
      | yes e ↦
          rw e
            (slot-same (table i) l j (table_reach i hi).0 (table_reach i hi).1 hl hj ∙ ground arith)
      | no ne ↦
          slot-ne (table k) (table i) l j (table_reach k hk).0 (table_reach i hi).0
            (table_reach k hk).1 (table_reach i hi).1 hl hj
            (λ e. ne (d.distinct k i hk hi odd_k odd (omega arith)))
          ∙ ground arith
    ]

    pub entry-with_entry :
        ram (slot pgd i) % 2 ≡ 1
        → entry (with_entry ram pgd i j pte) pgd k l
          ≡ (if k == i && l == j then pte else entry ram pgd k l)
    entry-with_entry odd = ground (arith, table-ne-pgd, pgd-ne-table odd, table-table odd)

module _ {pgd : ℕ} {ram : ℕ → ℕ} (d : IsDirectory pgd ram) (i j pte : ℕ) (hi : i < 1024)
    (hj : j < 1024) where
  -- A store into a table leaves the directory as it was.
  pub pgd-with_entry :
      (k : ℕ)
      → k < 1024
      → ram (slot pgd i) % 2 ≡ 1
      → with_entry ram pgd i j pte (slot pgd k) ≡ ram (slot pgd k)
  pgd-with_entry k hk odd = ground (
    arith,
    slot-same pgd k i d.aligned d.in_reach hk hi,
    slot-ne pgd (ram (slot pgd i) / 4096 * 4096) k j d.aligned (omega arith) d.in_reach
        (omega (arith, d.words i hi)) hk hj (λ e. d.apart i hi odd (omega arith)),
    slot-index pgd k i d.aligned d.in_reach hk hi,
  )

module _ {pgd page : ℕ} {ram : ℕ → ℕ} (d : IsDirectory pgd ram) (f : IsFresh pgd page ram)
    (i j pde pte : ℕ) (hi : i < 1024) (hj : j < 1024) (k l : ℕ) (hk : k < 1024)
    (hl : l < 1024) where
  abbrev pub after : ℕ → ℕ
  after = with_table ram pgd page i j pde pte

  -- The directory changes at index `i` only.
  pub after-pgd : after (slot pgd k) ≡ (if k == i then pde else ram (slot pgd k))
  after-pgd = ground (
    arith,
    slot-ne pgd page k j d.aligned f.aligned d.in_reach f.in_reach hk hj
        (λ e. f.ne_pgd (omega (arith, f.aligned, d.aligned))),
    slot-same pgd k i d.aligned d.in_reach hk hi,
    slot-page pgd k d.aligned d.in_reach hk,
    f.ne_pgd,
    f.aligned,
    d.aligned,
  )

  -- The new table holds the new entry and nothing else.
  after-page : after (slot page l) ≡ (if l == j then pte else 0)
  after-page = ground (
    arith,
    slot-ne page pgd l i f.aligned d.aligned f.in_reach d.in_reach hl hi
        (λ e. f.ne_pgd (omega (arith, f.aligned, d.aligned))),
    slot-same page l j f.aligned f.in_reach hl hj,
    slot-eq page l f.aligned f.in_reach hl,
  )

  -- The tables that were there keep their words.
  after-other :
      (t : ℕ)
      → t % 4096 ≡ 0
      → t + 4096 ≤ 2 ^ 32
      → t / 4096 ≢ pgd / 4096
      → t / 4096 ≢ page / 4096
      → after (slot t l) ≡ ram (slot t l)
  after-other t a r ne_d ne_p = ground (
    arith,
    slot-ne t page l j a f.aligned r f.in_reach hl hj ne_p,
    slot-ne t pgd l i a d.aligned r d.in_reach hl hi ne_d,
    slot-page t l a r hl,
    f.aligned,
  )

  after-table :
      ram (slot pgd k) % 2 ≡ 1
      → let t = ram (slot pgd k) / 4096 * 4096 in after (slot t l) ≡ ram (slot t l)
  after-table odd =
      after-other (ram (slot pgd k) / 4096 * 4096) (omega arith) (omega (arith, d.words k hk))
        (λ e. d.apart k hk odd (omega arith)) (λ e. f.ne_table k hk odd (omega arith))

  pub entry-with_table :
      pte % 2 ≡ 1
      → ram (slot pgd i) % 2 ≡ 0
      → pde / 4096 * 4096 ≡ page
      → pde % 2 ≡ 1
      → entry after pgd k l ≡ (if k == i && l == j then pte else entry ram pgd k l)
  entry-with_table present missing e odd = elim (ℕ_discrete k i) [
    | yes same ↦ ground (arith, after-pgd, after-page)
    | no other ↦ ground (arith, after-pgd, after-table)
  ]
