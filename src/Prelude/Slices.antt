-- ===== src/Prelude/Slices.antt =====
-- Ranges of a list, read and written. Equations between lists are proved place by place.
use Prim.Native.Nat.{ℕ, zero, suc, ◌+◌, ◌-◌, ◌≤◌, ◌<◌}
use mathlib.Core.Path.{◌≡◌, refl, ap, ap₂, ◌∙◌}
use mathlib.Core.List.{List, [], ◌∷◌, ◌++◌}
use mathlib.Core.Option.{none, some}
use native.Mathlib.Omega.{arith}
use by_doing.Prelude.Tests.{ltb, ◌==◌, if◌then◌else◌}
use by_doing.Prelude.Lists.{
  length, get_elem?, set, take, drop, length-append, length-take, length-drop,
}

module _ {ℓ} {A : Type ℓ} where
  -- The `n` elements from place `i` on.
  abbrev pub slice : List A → ℕ → ℕ → List A
  slice xs i n = take n (drop i xs)

  -- `ys` written over `xs` from place `i` on.
  abbrev pub splice : List A → ℕ → List A → List A
  splice xs i ys = take i xs ++ (ys ++ drop (i + length ys) xs)

  pub get_elem?-none : (xs : List A) (k : ℕ) → length xs ≤ k → get_elem? xs k ≡ none
  get_elem?-none [] k h = refl
  get_elem?-none (x ∷ xs) zero h = absurd (omega arith)
  get_elem?-none (x ∷ xs) (suc k) h = get_elem?-none xs k (omega arith)

  pub get_elem?-take :
      (n : ℕ) (xs : List A) (k : ℕ)
      → get_elem? (take n xs) k ≡ (if ltb k n then get_elem? xs k else none)
  get_elem?-take zero xs k = ground arith
  get_elem?-take (suc n) [] k = ground arith
  get_elem?-take (suc n) (x ∷ xs) zero = ground arith
  get_elem?-take (suc n) (x ∷ xs) (suc k) = ground (arith, get_elem?-take n xs k)

  pub get_elem?-drop :
      (n : ℕ) (xs : List A) (k : ℕ) → get_elem? (drop n xs) k ≡ get_elem? xs (n + k)
  get_elem?-drop zero xs k = ap (get_elem? xs) (omega arith)
  get_elem?-drop (suc n) [] k = refl
  get_elem?-drop (suc n) (x ∷ xs) k =
      get_elem?-drop n xs k
      ∙ ap (get_elem? (x ∷ xs)) {x = suc (n + k)} {y = suc n + k} (omega arith)

  pub get_elem?-append :
      (xs ys : List A) (k : ℕ)
      → get_elem? (xs ++ ys) k
        ≡ (if ltb k (length xs) then get_elem? xs k else get_elem? ys (k - length xs))
  get_elem?-append [] ys k = ground arith
  get_elem?-append (x ∷ xs) ys zero = ground arith
  get_elem?-append (x ∷ xs) ys (suc k) = ground (arith, get_elem?-append xs ys k)

  some-eq : {a b : A} → some a ≡ some b → a ≡ b
  some-eq p = cc

  pub list_ext : (xs ys : List A) → ((k : ℕ) → get_elem? xs k ≡ get_elem? ys k) → xs ≡ ys
  list_ext [] [] h = refl
  list_ext [] (y ∷ ys) h = absurd (cc (h 0))
  list_ext (x ∷ xs) [] h = absurd (cc (h 0))
  list_ext (x ∷ xs) (y ∷ ys) h = ap₂ ◌∷◌ (some-eq (h 0)) (list_ext xs ys (λ k. h (suc k)))

  pub get_elem?-slice :
      (xs : List A) (i n k : ℕ)
      → get_elem? (slice xs i n) k ≡ (if ltb k n then get_elem? xs (i + k) else none)
  get_elem?-slice xs i n k = ground (arith, get_elem?-take n (drop i xs) k, get_elem?-drop i xs k)

  pub length-slice : (xs : List A) (i n : ℕ) → i + n ≤ length xs → length (slice xs i n) ≡ n
  length-slice xs i n h = omega (arith, length-take n (drop i xs), length-drop i xs)

  pub length-splice :
      (xs : List A) (i : ℕ) (ys : List A)
      → i + length ys ≤ length xs
      → length (splice xs i ys) ≡ length xs
  length-splice xs i ys h = omega (
    arith,
    length-append (take i xs) (ys ++ drop (i + length ys) xs),
    length-append ys (drop (i + length ys) xs),
    length-take i xs,
    length-drop (i + length ys) xs,
  )

module _ {A : Type 0} where
  pub get_elem?-set :
      (xs : List A) (i : ℕ) (v : A) (k : ℕ)
      → get_elem? (set xs i v) k
        ≡ (if k == i then (if ltb i (length xs) then some v else none) else get_elem? xs k)
  get_elem?-set [] i v k = ground arith
  get_elem?-set (x ∷ xs) zero v zero = ground arith
  get_elem?-set (x ∷ xs) zero v (suc k) = ground arith
  get_elem?-set (x ∷ xs) (suc i) v zero = ground arith
  get_elem?-set (x ∷ xs) (suc i) v (suc k) = ground (arith, get_elem?-set xs i v k)

  -- A place inside the list holds something.
  pub get_elem?-some : (xs : List A) (k : ℕ) → k < length xs → (a : A) × (get_elem? xs k ≡ some a)
  get_elem?-some [] k h = absurd (omega arith)
  get_elem?-some (x ∷ xs) zero h = (x, refl)
  get_elem?-some (x ∷ xs) (suc k) h = get_elem?-some xs k (omega arith)

  pub get_elem?-splice :
      (xs : List A) (i : ℕ) (ys : List A) (k : ℕ)
      → i ≤ length xs
      → get_elem? (splice xs i ys) k ≡ (
          if ltb k i
          then get_elem? xs k
          else if ltb k (i + length ys)
          then get_elem? ys (k - i)
          else get_elem? xs k)
  get_elem?-splice xs i ys k h =
      let rest = drop (i + length ys) xs in
      ground (
        arith,
        get_elem?-append (take i xs) (ys ++ rest) k,
        get_elem?-append ys rest (k - i),
        get_elem?-take i xs k,
        get_elem?-drop (i + length ys) xs (k - i - length ys),
        length-take i xs,
        ap (get_elem? xs) {x = i + length ys + (k - i - length ys)} {y = k},
      )
