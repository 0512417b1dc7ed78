-- ===== src/ThreadPool/Turns.antt =====
-- Calls of `thread_pool_get_loop` in sequence.
use by_doing.Prelude.{
  ℕ, zero, suc, ◌≡◌, refl, true, Option, none, some, List, [], ◌∷◌, ◌++◌, get_elem?, length,
  length-append, arith,
}
use mathlib.Core.List.{append_assoc}
use by_doing.Prelude.Int.{pos}
use by_doing.ThreadPool.{
  ThreadPool, thread_pool_new, start_threads, thread_pool_start, get_loop, next_position,
}

-- `n` calls of `thread_pool_get_loop`, with the loops that they return.
unfoldable pub get_loops : ℕ → ThreadPool → Option (List ℕ × ThreadPool)
unfolding get_loop
get_loops zero p = some ([], p)
get_loops (suc n) p = elim (get_loop p) [
  | none ↦ none
  | some (l, p') ↦ elim (get_loops n p') [ none ↦ none | some (ls, p'') ↦ some (l ∷ ls, p'') ]
]

get_elem?-middle :
    (xs : List ℕ) (y : ℕ) (ys : List ℕ) → get_elem? (xs ++ (y ∷ ys)) (length xs) ≡ some y
get_elem?-middle [] y ys = refl
get_elem?-middle (x ∷ xs) y ys = get_elem?-middle xs y ys

-- The pool whose next turn is that of place `i`.
abbrev turned : ℕ → List ℕ → ℕ → ThreadPool
turned main_loop loops i = record {
  main_loop = main_loop;
  started = true;
  thread_number = pos (length loops);
  loops = loops;
  position = i;
}

one_turn :
    (main_loop : ℕ) (xs : List ℕ) (y : ℕ) (ys : List ℕ)
    → get_loop (turned main_loop (xs ++ (y ∷ ys)) (length xs))
      ≡ some (
        y,
        turned main_loop (xs ++ (y ∷ ys)) (next_position (length (xs ++ (y ∷ ys))) (length xs)),
      )
unfolding get_loop
one_turn main_loop xs y ys = ground (arith, get_elem?-middle xs y ys, length-append xs (y ∷ ys))

-- From a place on, the loops that are left serve, and the turn goes back to the first.
rest_of_round :
    (main_loop : ℕ) (xs : List ℕ) (y : ℕ) (ys : List ℕ)
    → get_loops (suc (length ys)) (turned main_loop (xs ++ (y ∷ ys)) (length xs))
      ≡ some (y ∷ ys, turned main_loop (xs ++ (y ∷ ys)) 0)
unfolding get_loops
rest_of_round main_loop xs y [] =
    ground (arith, one_turn main_loop xs y [], length-append xs (y ∷ []))
rest_of_round main_loop xs y (z ∷ zs) =
    let here = one_turn main_loop xs y (z ∷ zs) in
    let later = rest_of_round main_loop (xs ++ (y ∷ [])) z zs in
    let same : (xs ++ (y ∷ [])) ++ (z ∷ zs) ≡ xs ++ (y ∷ z ∷ zs) =
      append_assoc xs (y ∷ []) (z ∷ zs) in
    let next : next_position (length (xs ++ (y ∷ z ∷ zs))) (length xs) ≡ length (xs ++ (y ∷ [])) =
      ground (arith, length-append xs (y ∷ z ∷ zs), length-append xs (y ∷ [])) in
    ground (arith, here, later, same, next)

start_length : (f : ℕ → ℕ) (i n : ℕ) → length (start_threads f i n) ≡ n
unfolding start_threads
start_length f i zero = refl
start_length f i (suc n) = omega (arith, start_length f (suc i) n)

-- A new pool with at least one thread starts, and each of its loops then serves exactly once, in the
-- order of the threads, before the turn is that of the first again.
pub get_loops-round :
    (main_loop n : ℕ) (started_loop : ℕ → ℕ)
    → (p : ThreadPool) × (thread_pool_start started_loop (thread_pool_new main_loop (pos (suc n)))
        ≡ some p)
      × (get_loops (suc n) p ≡ some (start_threads started_loop 0 (suc n), p))
unfolding thread_pool_start thread_pool_new start_threads
get_loops-round main_loop n started_loop =
    let rest = start_threads started_loop 1 n in
    let size = start_length started_loop 1 n in
    let p : ThreadPool = record {
      main_loop = main_loop;
      started = true;
      thread_number = pos (suc n);
      loops = started_loop 0 ∷ rest;
      position = 0;
    } in
    let round = rest_of_round main_loop [] (started_loop 0) rest in
    (p, refl, ground (arith, round, size))
