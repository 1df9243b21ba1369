-- ===== src/Fs/Cache/Free.antt =====
-- The free buffers of the cache as a queue: a miss takes the first, a release puts one at the end.
use mathlib.Core.Path.{subst}
use orcas.Base.{ℕ, ◌≡◌, ◌≢◌, refl, sym, arith, List, [], ◌∷◌, ◌++◌}
use orcas.Util.{put}
use orcas.Fs.Cache.{Cache, lru_list_head}

abbrev pub NotIn : ℕ → List ℕ → Type 0
NotIn a [] = Unit {0}
NotIn a (x ∷ xs) = (a ≢ x) × NotIn a xs

abbrev pub Distinct : List ℕ → Type 0
Distinct [] = Unit {0}
Distinct (x ∷ xs) = NotIn x xs × Distinct xs

abbrev pub last : ℕ → List ℕ → ℕ
last p [] = p
last p (x ∷ xs) = last x xs

-- From `p` on, the links lead through `xs` and back to the head.
abbrev pub Links : (next prev : ℕ → ℕ) (p : ℕ) → List ℕ → Type 0
Links next prev p [] = next p ≡ lru_list_head
Links next prev p (x ∷ xs) = (next p ≡ x) × (prev x ≡ p) × Links next prev x xs

-- The ring of the links is `xs`, in the order of `next`.
pub record IsRing (next prev : ℕ → ℕ) (xs : List ℕ) : Type 0 where
  pub links : Links next prev lru_list_head xs
  pub tail : prev lru_list_head ≡ last lru_list_head xs
  pub distinct : Distinct (lru_list_head ∷ xs)

-- The free buffers are `xs`, the least recently used one first.
abbrev pub IsFree : Cache → List ℕ → Type 0
IsFree c xs = IsRing c.lru_next c.lru_prev xs

pub Links-put_next :
    (next prev : ℕ → ℕ) (a w p : ℕ) (xs : List ℕ)
    → NotIn a (p ∷ xs)
    → Links next prev p xs
    → Links (put a w next) prev p xs
Links-put_next next prev a w p [] h l = ground (arith, l)
Links-put_next next prev a w p (x ∷ xs) (ne, h) (e, b, l) =
    (ground (arith, e), b, Links-put_next next prev a w x xs h l)

pub Links-put_prev :
    (next prev : ℕ → ℕ) (a w p : ℕ) (xs : List ℕ)
    → NotIn a xs
    → Links next prev p xs
    → Links next (put a w prev) p xs
Links-put_prev next prev a w p [] h l = l
Links-put_prev next prev a w p (x ∷ xs) (ne, h) (e, b, l) =
    (e, ground (arith, b), Links-put_prev next prev a w x xs h l)

pub NotIn-last : (a p : ℕ) (xs : List ℕ) → NotIn a (p ∷ xs) → a ≢ last p xs
NotIn-last a p [] (ne, h) = ne
NotIn-last a p (x ∷ xs) (ne, h) = NotIn-last a x xs h

-- A new last node.
pub Links-append :
    (next prev : ℕ → ℕ) (a p : ℕ) (xs : List ℕ)
    → NotIn a (lru_list_head ∷ p ∷ xs)
    → Distinct (p ∷ xs)
    → Links next prev p xs
    → Links
        (put a lru_list_head (put (last p xs) a next))
        (put a (last p xs) prev)
        p
        (xs ++ (a ∷ []))
Links-append next prev a p [] (n0, (np, h)) d l = (ground arith, ground arith, ground arith)
Links-append next prev a p (x ∷ xs) (n0, (np, (nx, h))) (nd, d) (e, b, l) = (
  ground (arith, e, NotIn-last p x xs nd),
  ground (arith, b),
  Links-append next prev a x xs (n0, (nx, h)) d l,
)

pub NotIn-append : (a b : ℕ) (xs : List ℕ) → a ≢ b → NotIn a xs → NotIn a (xs ++ (b ∷ []))
NotIn-append a b [] ne h = (ne, tt)
NotIn-append a b (x ∷ xs) ne (n, h) = (n, NotIn-append a b xs ne h)

pub Distinct-append : (a : ℕ) (xs : List ℕ) → NotIn a xs → Distinct xs → Distinct (xs ++ (a ∷ []))
Distinct-append a [] h d = (tt, tt)
Distinct-append a (x ∷ xs) (ne, h) (n, d) =
    (NotIn-append x a xs (λ e. ne (sym e)) n, Distinct-append a xs h d)

pub last-append : (a p : ℕ) (xs : List ℕ) → last p (xs ++ (a ∷ [])) ≡ a
last-append a p [] = refl
last-append a p (x ∷ xs) = last-append a x xs

-- The ring behind the first buffer, when that is taken.
pub pop :
    (next prev : ℕ → ℕ) (x : ℕ) (xs : List ℕ)
    → Distinct (lru_list_head ∷ x ∷ xs)
    → Links next prev x xs
    → Links (put lru_list_head (next x) next) (put (next x) lru_list_head prev) lru_list_head xs
pop next prev x [] (_, _) l = ground (arith, l)
pop next prev x (y ∷ ys) ((_, n0), (_, (ny, _))) (e, b, l) =
    let one = Links-put_next next prev lru_list_head (next x) y ys n0 l in
    let both = Links-put_prev (put lru_list_head (next x) next) prev y lru_list_head y ys ny one in
    (
      ground (arith, e),
      ground (arith, e),
      subst (λ z. Links (put lru_list_head (next x) next) (put z lru_list_head prev) y ys) (sym e)
          both,
    )

pub pop_tail :
    (next prev : ℕ → ℕ) (x : ℕ) (xs : List ℕ)
    → Distinct (lru_list_head ∷ x ∷ xs)
    → Links next prev x xs
    → prev lru_list_head ≡ last x xs
    → put (next x) lru_list_head prev lru_list_head ≡ last lru_list_head xs
pop_tail next prev x [] d l t = ground (arith, l)
pop_tail next prev x (y ∷ ys) ((_, (n0, _)), _) (e, b, l) t = ground (arith, e, n0, t)
