-- ===== src/Fs/Calls/Make.antt =====
-- The entry that `creat` and `mk` make in memory.
use native.Mathlib.Decide.{ℕ_discrete}
use orcas.Base.{
  ℕ, ◌+◌, ◌-◌, ◌^◌, ◌≤◌, ◌<◌, ◌≡◌, ◌⊎◌, ◌∙◌, arith, List, [], ◌∷◌, length, some, ap, sym, refl,
}
use orcas.Util.{Memory, strlen, strncpy}
use orcas.Util.Text.{HasText, HasText-shift, strlen-length}
use orcas.Util.Copy.{strncpy-copies}
use orcas.Fs.Directory.{sizeof_dentry, name_of, namelen}
use orcas.Fs.Directory.Entries.{EntryAt, word_at-moved}
use orcas.Fs.Super.{word_at}
use orcas.Fs.Allocator.{fill}
use orcas.Fs.Calls.{start_entry, name_entry}

HasText-end : (mem : Memory) (p : ℕ) (s : List ℕ) → HasText mem p s → mem (p + length s) ≡ 0
HasText-end mem p [] t = ap mem (omega arith) ∙ t
HasText-end mem p (c ∷ s) t = ap mem (omega arith) ∙ HasText-end mem (p + 1) s t.2

-- What the memory holds before the name: the bytes of the number, and NUL behind them.
start_entry-outside :
    (de ino a : ℕ) (mem : Memory)
    → (a < de) ⊎ (de + sizeof_dentry ≤ a)
    → start_entry de ino mem a ≡ mem a
unfolding start_entry fill
start_entry-outside de ino a mem h = ground arith

start_entry-cleared :
    (de ino i : ℕ) (mem : Memory) → i < namelen → start_entry de ino mem (name_of de + i) ≡ 0
unfolding start_entry fill
start_entry-cleared de ino i mem h = ground arith

start_entry-word_at :
    (de ino : ℕ) (mem : Memory) → ino < 2 ^ 32 → word_at (start_entry de ino mem) de ≡ ino
unfolding start_entry fill
start_entry-word_at de ino mem h = ground arith

module _ (d p : ℕ) (mem : Memory) (s : List ℕ) (t : HasText mem p s)
    (apart : (d + length s ≤ p) ⊎ (p + length s < d)) where
  strncpy-inside : (i : ℕ) → i < length s → (strncpy d p (length s) mem).1 (d + i) ≡ mem (p + i)
  strncpy-inside i h =
      let e : p + (d + i - d) ≡ p + i = omega arith in
      ground (arith, (strncpy-copies d p (length s) mem s (d + i) t apart).1, ap mem e)

  pub strncpy-outside :
      (a : ℕ) → (a < d) ⊎ (d + length s ≤ a) → (strncpy d p (length s) mem).1 a ≡ mem a
  strncpy-outside a h = ground (arith, (strncpy-copies d p (length s) mem s a t apart).1)

pub name_entry-far :
    (fuel de name len : ℕ) (mem : Memory)
    → strlen fuel name mem ≡ some len
    → name_entry fuel de name mem ≡ some (strncpy (name_of de) name len mem).1
unfolding name_entry
name_entry-far fuel de name len mem e = rw (e, name_entry) refl

-- The entry that `creat` and `mk` make of a 32-bit number and a name of less than 100 bytes, which
-- stands clear of it, has that number and name.
pub name_entry-EntryAt :
    (fuel de ino name : ℕ) (mem : Memory) (s : List ℕ)
    → length s < fuel
    → length s < namelen
    → ino < 2 ^ 32
    → HasText mem name s
    → (name + length s < de) ⊎ (de + sizeof_dentry ≤ name)
    → (mem' : Memory) × (name_entry fuel de name (start_entry de ino mem) ≡ some mem')
      × EntryAt mem' de ino s
      × ((a : ℕ) → (a < de) ⊎ (de + sizeof_dentry ≤ a) → mem' a ≡ mem a)
name_entry-EntryAt fuel de ino name mem s h short fits t apart =
    let m0 : Memory = start_entry de ino mem in
    let m1 : Memory = (strncpy (name_of de) name (length s) m0).1 in
    let t0 : HasText m0 name s =
      HasText-shift mem m0 name name s
        (λ i p. start_entry-outside de ino (name + i) mem (omega arith)) t in
    let run = name_entry-far fuel de name (length s) m0 (strlen-length fuel name m0 s h t0) in
    let clear : (name_of de + length s ≤ name) ⊎ (name + length s < name_of de) = omega arith in
    let outside = strncpy-outside (name_of de) name m0 s t0 clear in
    (
      m1,
      run,
      record {
        named =
            HasText-shift m0 m1 name (name_of de) s
              (λ i p. elim (ℕ_discrete i (length s)) [
                | yes e ↦
                    outside (name_of de + i) (omega arith)
                    ∙ start_entry-cleared de ino i mem (omega arith)
                    ∙ sym (ap (λ k. m0 (name + k)) e ∙ HasText-end m0 name s t0)
                | no ne ↦ strncpy-inside (name_of de) name m0 s t0 clear i (omega arith)
              ])
              t0;
        short = short;
        numbered =
            word_at-moved m0 m1 de de (λ i p. outside (de + i) (omega arith))
            ∙ start_entry-word_at de ino mem fits;
      },
      λ a p. outside a (omega arith) ∙ start_entry-outside de ino a mem p,
    )
