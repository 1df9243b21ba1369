-- ===== src/Memory/Table/Translate.antt =====
-- The contract of `map`: `translate` afterwards, for every address.
use native.Mathlib.Decide.{ℕ_discrete}
use orcas.Base.{ℕ, ◌+◌, ◌*◌, ◌/◌, ◌%◌, ◌^◌, ◌<◌, ◌≡◌, ◌∙◌, refl, ◌==◌, if◌then◌else◌, arith}
use orcas.Base.Bits.{bit_or-fields}
use orcas.Memory.Page.{ppn-eq, offset-eq, entry-eq, pg_size}
use orcas.Memory.Machine.{Machine, slot}
use orcas.Memory.Table.{getpte, translate, map}
use orcas.Memory.Table.Entry.{IsDirectory}
use orcas.Memory.Table.Map.{dir, tab, pte_of, IsReady, getpte-eq-entry, entry-map, pde-map}

module _ (pgd pa va flags : ℕ) (m : Machine) (d : IsDirectory pgd m.ram) (hpa : pa < 2 ^ 32)
    (hva : va < 2 ^ 32) (hf : flags < pg_size) (ready : IsReady pgd va m) where
  -- `map` keeps the directory well formed.
  pub map-IsDirectory : IsDirectory pgd (map pgd pa va flags m).1.ram
  map-IsDirectory = record {
    aligned = d.aligned;
    in_reach = d.in_reach;
    words = λ i hi. elim (ℕ_discrete (m.ram (slot pgd (dir va)) % 2) 0) [
      | yes even ↦
          let f = ready even in
          ground (
            arith,
            f.in_reach,
            f.aligned,
            pde-map pgd pa va flags m d hpa hva hf ready i hi,
            d.words i hi,
          )
      | no odd ↦ ground (arith, pde-map pgd pa va flags m d hpa hva hf ready i hi, d.words i hi)
    ];
    apart = λ i hi odd_i. elim (ℕ_discrete (m.ram (slot pgd (dir va)) % 2) 0) [
      | yes even ↦
          let f = ready even in
          ground (
            arith,
            f.in_reach,
            f.aligned,
            f.ne_pgd,
            d.aligned,
            pde-map pgd pa va flags m d hpa hva hf ready i hi,
            d.apart i hi,
          )
      | no odd ↦ ground (arith, pde-map pgd pa va flags m d hpa hva hf ready i hi, d.apart i hi)
    ];
    distinct = λ i j hi hj odd_i odd_j e. elim (ℕ_discrete (m.ram (slot pgd (dir va)) % 2) 0) [
      | yes even ↦
          let f = ready even in
          ground (
            arith,
            f.in_reach,
            f.aligned,
            d.aligned,
            pde-map pgd pa va flags m d hpa hva hf ready i hi,
            pde-map pgd pa va flags m d hpa hva hf ready j hj,
            d.distinct i j hi hj,
            f.ne_table i hi,
            f.ne_table j hj,
          )
      | no odd ↦ ground (
        arith,
        pde-map pgd pa va flags m d hpa hva hf ready i hi,
        pde-map pgd pa va flags m d hpa hva hf ready j hj,
        d.distinct i j hi hj,
      )
    ];
  }

  -- After `map`, the page of `va` has the new entry, and every other page the entry it had.
  map-getpte :
      (other : ℕ)
      → other < 2 ^ 32
      → getpte pgd other (map pgd pa va flags m).1
        ≡ (if other / pg_size == va / pg_size then pte_of pa flags else getpte pgd other m)
  map-getpte other ho =
      getpte-eq-entry pgd other (map pgd pa va flags m).1 ho
        (map-IsDirectory.words (dir other) (omega arith))
      ∙ entry-map pgd pa va flags m d hpa hva hf ready (dir other) (tab other) (omega arith)
          (omega arith)
      ∙ ground (arith, getpte-eq-entry pgd other m ho (d.words (dir other) (omega arith)))

  -- After `map`, an address of the page of `va` translates to the same offset in the frame of `pa`,
  -- and every other address translates as before.
  pub map-translate :
      (other : ℕ)
      → other < 2 ^ 32
      → translate pgd other (map pgd pa va flags m).1 ≡ (
          if other / pg_size == va / pg_size
          then pa / pg_size * pg_size + other % pg_size
          else translate pgd other m)
  unfolding translate
  map-translate other ho = ground (
    arith,
    map-getpte other ho,
    entry-eq pa flags hpa hf,
    ppn-eq (pte_of pa flags),
    offset-eq other,
    bit_or-fields 12 (pa / 4096) (other % 4096),
  )

-- Through a directory entry that is not present nothing is mapped.
pub translate-absent :
    (pgd va : ℕ) (m : Machine)
    → va < 2 ^ 32
    → m.ram (slot pgd (dir va)) < 2 ^ 32
    → m.ram (slot pgd (dir va)) % 2 ≡ 0
    → translate pgd va m ≡ 0
unfolding translate
translate-absent pgd va m h w even = ground (arith, getpte-eq-entry pgd va m h w)

-- Loading the directory register does not change what a directory translates.
pub translate-cr3 :
    (pgd va v : ℕ) (m : Machine) → translate pgd va (record m { cr3 = v }) ≡ translate pgd va m
unfolding translate getpte
translate-cr3 pgd va v m = refl
