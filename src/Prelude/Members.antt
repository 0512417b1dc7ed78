-- ===== src/Prelude/Members.antt =====
-- Numbers in a list: the search for a free one among finitely many used ones.
use by_doing.Prelude.{
  ℕ, ◌+◌, ◌≡◌, ◌≢◌, Bool, true, false, List, [], ◌∷◌, ◌==◌, if◌then◌else◌, length, arith,
}

unfoldable pub elem : ℕ → List ℕ → Bool
elem p [] = false
elem p (q ∷ qs) = let later = elem p qs in if q == p then true else later

unfoldable pub remove : ℕ → List ℕ → List ℕ
remove p [] = []
remove p (q ∷ qs) = let later = remove p qs in if q == p then qs else q ∷ later

pub elem-remove : (p q : ℕ) (qs : List ℕ) → p ≢ q → elem q qs ≡ true → elem q (remove p qs) ≡ true
unfolding elem remove
elem-remove p q [] ne e = absurd (cc e)
elem-remove p q (x ∷ xs) ne e = ground (arith, elem-remove p q xs ne)

pub length-remove : (p : ℕ) (qs : List ℕ) → elem p qs ≡ true → length (remove p qs) + 1 ≡ length qs
unfolding elem remove
length-remove p [] e = absurd (cc e)
length-remove p (x ∷ xs) e = ground (arith, length-remove p xs)
