-- ===== src/ThreadPool.antt =====
-- NetWork/lib/thread_pool.c: the event loops of the pool's threads, which serve in turn. An event loop is
-- named by its address. The handshake of event_loop_thread.c, after which a thread's event loop is
-- there, is the argument `started_loop`. All calls are by the thread of the main loop.
pub mod Turns
mod Tests
use by_doing.Prelude.{
  ℕ, zero, suc, ◌+◌, Bool, true, false, Option, none, some, List, [], ◌∷◌, leb, if◌then◌else◌,
  get_elem?,
}
use by_doing.Prelude.Int.{ℤ, pos, negsuc}

pub record ThreadPool : Type 0 where
  pub main_loop : ℕ
  pub started : Bool
  pub thread_number : ℤ
  pub loops : List ℕ
  pub position : ℕ

unfoldable pub thread_pool_new : ℕ → ℤ → ThreadPool
thread_pool_new main_loop n = record {
  main_loop = main_loop;
  started = false;
  thread_number = n;
  loops = [];
  position = 0;
}

-- The loops of the threads `i` to `i + n - 1`.
unfoldable pub start_threads : (ℕ → ℕ) → ℕ → ℕ → List ℕ
start_threads started_loop i zero = []
start_threads started_loop i (suc n) = started_loop i ∷ start_threads started_loop (suc i) n

-- `none`: the assertion fails.
unfoldable pub thread_pool_start : (ℕ → ℕ) → ThreadPool → Option ThreadPool
unfolding start_threads
thread_pool_start started_loop p = if p.started then none else elim p.thread_number [
  | negsuc _ ↦ some (record p { started = true })
  | pos n ↦ some (record p { started = true; loops = start_threads started_loop 0 n })
]

-- `++position >= thread_number`
abbrev pub next_position : ℕ → ℕ → ℕ
next_position n i = if leb n (i + 1) then 0 else i + 1

abbrev pub take_turn : ThreadPool → ℕ → Option (ℕ × ThreadPool)
take_turn p n = elim (get_elem? p.loops p.position) [
  | none ↦ none
  | some l ↦ some (l, record p { position = next_position n p.position })
]

unfoldable pub get_loop : ThreadPool → Option (ℕ × ThreadPool)
get_loop p =
    if p.started
    then elim p.thread_number [
      | negsuc _ ↦ some (p.main_loop, p)
      | pos n ↦ elim n [ zero ↦ some (p.main_loop, p) | suc m ↦ take_turn p (suc m) ]
    ]
    else none
