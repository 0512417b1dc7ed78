-- ===== src/Buffer/Find.antt =====
-- `buffer_find_CRLF` of NetWork/lib/buffer.c.
use by_doing.Prelude.{
  ℕ, zero, suc, ◌<◌, ◌≡◌, Option, none, some, inl, inr, Bool-cases, ◌==◌, ◌&&◌, List, [], ◌∷◌,
  arith, get_elem?,
}
use by_doing.Buffer.{Buffer, crlf_distance, find_crlf}
use by_doing.Buffer.Window.{IsValid, contents}

-- A CRLF stands at place `n`.
abbrev pub CrlfAt : List ℕ → ℕ → Type 0
CrlfAt xs n = (get_elem? xs n ≡ some 13) × (get_elem? xs (suc n) ≡ some 10)

pub not-CrlfAt-nil : (n : ℕ) → ¬ CrlfAt [] n
not-CrlfAt-nil n (p, q) = cc

not-CrlfAt-one : (c n : ℕ) → ¬ CrlfAt (c ∷ []) n
not-CrlfAt-one c zero (p, q) = cc
not-CrlfAt-one c (suc n) (p, q) = cc

abbrev pub First : List ℕ → ℕ → Type 0
First xs n = CrlfAt xs n × ((m : ℕ) → m < n → ¬ CrlfAt xs m)

CrlfAt-tail : (c : ℕ) (xs : List ℕ) (m : ℕ) → CrlfAt (c ∷ xs) (suc m) → CrlfAt xs m
CrlfAt-tail c xs m h = h

-- `none` of the search says that no CRLF stands anywhere, and a place that it is the first.
abbrev pub FoundIn : List ℕ → Option ℕ → Type 0
FoundIn xs none = (m : ℕ) → ¬ CrlfAt xs m
FoundIn xs (some n) = First xs n

FoundIn-later :
    (c d : ℕ) (cs : List ℕ) (o : Option ℕ)
    → ¬ CrlfAt (c ∷ d ∷ cs) 0
    → FoundIn (d ∷ cs) o
    → FoundIn (c ∷ d ∷ cs) (elim o [ none ↦ none | some n ↦ some (suc n) ])
FoundIn-later c d cs none miss f =
    λ m. elim m as (λ k. ¬ CrlfAt (c ∷ d ∷ cs) k) [ zero ↦ miss | suc k ↦ f k ]
FoundIn-later c d cs (some n) miss f = (
  f.0,
  λ m. elim m as (λ k. k < suc n → ¬ CrlfAt (c ∷ d ∷ cs) k) [
    | zero ↦ λ lt. miss
    | suc k ↦ λ lt. f.1 k (omega arith)
  ],
)

pub crlf_distance-FoundIn : (xs : List ℕ) → FoundIn xs (crlf_distance xs)
unfolding crlf_distance
crlf_distance-FoundIn [] = not-CrlfAt-nil
crlf_distance-FoundIn (c ∷ []) = not-CrlfAt-one c
crlf_distance-FoundIn (c ∷ d ∷ cs) = elim (Bool-cases (c == 13 && d == 10)) [
  | inl hit ↦ rw hit (ground arith, λ m lt. absurd (omega arith))
  | inr miss ↦ rw miss (
      FoundIn-later c d cs (crlf_distance (d ∷ cs)) (λ h. ground arith)
        (crlf_distance-FoundIn (d ∷ cs)))
]

-- On a well-formed buffer `buffer_find_CRLF` points to the first CRLF among the readable bytes, and
-- returns a null pointer exactly where there is none.
pub find_crlf-FoundIn : {b : Buffer} → IsValid b → FoundIn (contents b) (find_crlf b)
unfolding find_crlf
find_crlf-FoundIn {b} v =
    let e : find_crlf b ≡ crlf_distance (contents b) = ground arith in
    rw e (crlf_distance-FoundIn (contents b))
