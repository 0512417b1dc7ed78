-- ===== src/Http/StatusLine.antt =====
-- `process_status_line` of NetWork/lib/http_server.c.
use by_doing.Prelude.{
  ℕ, ◌+◌, ◌≡◌, ◌≢◌, refl, ap, none, some, List, [], ◌∷◌, ◌++◌, arith, length, take, drop, inl, inr,
  Option-cases,
}
use by_doing.Buffer.{c_string}
use by_doing.Http.{HttpRequest, Fresh, space_distance, strncpy, copy_part, process_status_line}

-- The byte does not occur.
abbrev pub Without : ℕ → List ℕ → Type 0
Without b [] = Unit
Without b (x ∷ xs) = (x ≢ b) × Without b xs

pub take-length : (xs ys : List ℕ) → take (length xs) (xs ++ ys) ≡ xs
take-length [] ys = refl
take-length (x ∷ xs) ys = ap (λ k. x ∷ k) (take-length xs ys)

pub drop-length : (xs ys : List ℕ) → drop (length xs) (xs ++ ys) ≡ ys
drop-length [] ys = refl
drop-length (x ∷ xs) ys = drop-length xs ys

pub space_distance-append :
    (part rest : List ℕ)
    → Without 32 part
    → space_distance (part ++ (32 ∷ rest)) ≡ some (length part)
unfolding space_distance
space_distance-append [] rest w = refl
space_distance-append (c ∷ cs) rest w = ground (arith, w.0, space_distance-append cs rest w.1)

pub strncpy-Without : (part : List ℕ) → Without 0 part → strncpy part ≡ part
unfolding strncpy
strncpy-Without [] w = refl
strncpy-Without (c ∷ cs) w = ground (arith, w.0, strncpy-Without cs w.1)

pub c_string-Without : (part : List ℕ) → Without 0 part → c_string part ≡ part
unfolding c_string
c_string-Without [] w = refl
c_string-Without (c ∷ cs) w = ground (arith, w.0, c_string-Without cs w.1)

-- Blocks exactly as large as asked for.
abbrev pub IsExact : Fresh → Type 0
IsExact fresh = (n : ℕ) → length (fresh.block n) ≡ n

copy_part-exact : (fresh : Fresh) (part : List ℕ) → IsExact fresh → copy_part fresh part ≡ none
unfolding copy_part
copy_part-exact fresh part e = ground (arith, e (length part + 1))

-- Where blocks are exactly as large as asked for, every call writes out of bounds or fails an assertion.
pub process_status_line-exact :
    (fresh : Fresh) (line : List ℕ) (r : HttpRequest)
    → IsExact fresh
    → process_status_line fresh line r ≡ none
unfolding process_status_line
process_status_line-exact fresh line r e = elim (Option-cases (space_distance line)) [
  | inl no_space ↦ ground (arith, no_space)
  | inr (m, at) ↦ ground (arith, at, copy_part-exact fresh (take m line) e)
]

-- A method, a URL and a version, with a space between them.
abbrev pub status_line : List ℕ → List ℕ → List ℕ → List ℕ
status_line method url version = method ++ (32 ∷ (url ++ (32 ∷ version)))
