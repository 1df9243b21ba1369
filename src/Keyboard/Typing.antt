-- ===== src/Keyboard/Typing.antt =====
-- What typing puts into the line.
use orcas.Base.{
  ℕ, suc, ◌+◌, ◌-◌, ◌^◌, ◌<◌, ◌≡◌, ◌∙◌, refl, ltb, leb, ◌&&◌, if◌then◌else◌, arith, List, [], ◌∷◌,
  length, get_or, ap, Bool-cases, ltb_false→le, inl, inr, true, false, u32,
}
use native.Mathlib.Decide.{ℕ_discrete}
use orcas.Util.{Memory, put}
use orcas.Keyboard.{keymap, is_typed, Line, press, show}

-- A key that is pressed and gives a character of the line.
pub record IsTyped (key : ℕ) : Type 0 where
  pub pressed : key < 128
  pub typed : is_typed (keymap key) ≡ true

abbrev AllTyped : List ℕ → Type 0
AllTyped [] = Unit {0}
AllTyped (k ∷ ks) = IsTyped k × AllTyped ks

-- The keys one after the other.
abbrev pub press_all : (line : ℕ) → List ℕ → Line → Line
press_all line [] l = l
press_all line (k ∷ ks) l = press_all line ks (press line k l).1

press-typed :
    (line key : ℕ) (l : Line)
    → IsTyped key
    → line + l.pos + 1 < 2 ^ 32
    → press line key l
      ≡ (show (keymap key), record { pos = l.pos + 1; mem = put (line + l.pos) (keymap key) l.mem })
unfolding press
press-typed line key l t fits =
    let lower : leb 128 key ≡ false = ground (arith, t.pressed) in
    let e1 : u32 (l.pos + 1) ≡ l.pos + 1 = omega arith in
    let e2 : u32 (line + l.pos) ≡ line + l.pos = omega arith in rw (lower, t.typed, e1, e2) refl

abbrev pub typed_over : (line pos : ℕ) → List ℕ → Memory → Memory
typed_over line pos keys mem a =
    if leb (line + pos) a && ltb a (line + pos + length keys)
    then keymap (get_or keys (a - (line + pos)) 0)
    else mem a

get_or-behind :
    (k b a : ℕ) (ks : List ℕ) → b < a → get_or (k ∷ ks) (a - b) 0 ≡ get_or ks (a - (b + 1)) 0
get_or-behind k b a ks h = let e : a - b ≡ suc (a - (b + 1)) = omega arith in rw e refl

typed_over-later :
    (line pos k : ℕ) (ks : List ℕ) (mem : Memory) (a : ℕ)
    → typed_over line (pos + 1) ks (put (line + pos) (keymap k) mem) a
      ≡ typed_over line pos (k ∷ ks) mem a
typed_over-later line pos k ks mem a = elim (ℕ_discrete a (line + pos)) [
  | yes e ↦ let first : a - (line + pos) ≡ 0 = omega arith in rw first (ground arith)
  | no ne ↦ elim (Bool-cases (ltb a (line + pos))) [
    | inl before ↦ ground arith
    | inr behind ↦
        let lt : line + pos < a = omega (arith, ltb_false→le a (line + pos) behind) in
        let same : line + (pos + 1) ≡ line + pos + 1 = omega arith in
        rw (get_or-behind k (line + pos) a ks lt, same) (ground arith)
  ]
]

-- Keys for lower case letters, digits and spaces add their characters to the line one after the
-- other and change no other byte. Nothing stops them at the end of the array: the 51st character
-- and those behind it are written behind `line`.
pub press_all-typed :
    (keys : List ℕ) (line : ℕ) (l : Line)
    → AllTyped keys
    → line + l.pos + length keys < 2 ^ 32
    → let after = press_all line keys l in
      (after.pos ≡ l.pos + length keys)
      × ((a : ℕ) → after.mem a ≡ typed_over line l.pos keys l.mem a)
press_all-typed [] line l t fits = (omega arith, λ a. ground arith)
press_all-typed (k ∷ ks) line l t fits =
    let next : Line = record { pos = l.pos + 1; mem = put (line + l.pos) (keymap k) l.mem } in
    let (count, bytes) = press_all-typed ks line next t.1 (omega arith) in
    let step = ap (λ r. press_all line ks r.1) (press-typed line k l t.0 (omega arith)) in
    (
      ap (λ m. m.pos) step ∙ count ∙ omega arith,
      λ a. ap (λ m. m.mem a) step ∙ bytes a ∙ typed_over-later line l.pos k ks l.mem a,
    )
