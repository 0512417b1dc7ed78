-- ===== src/ThreadPool/Tests.antt =====
-- The pool at concrete values.
use by_doing.Prelude.{◌≡◌, ◌+◌, some}
use by_doing.Prelude.Int.{pos}
use by_doing.ThreadPool.{ThreadPool, thread_pool_new, start_threads, thread_pool_start}
use by_doing.ThreadPool.Turns.{get_loops, get_loops-round}

round_example :
    (p : ThreadPool) × (thread_pool_start (λ i. i + 100) (thread_pool_new 7 (pos 3)) ≡ some p)
    × (get_loops 3 p ≡ some (start_threads (λ i. i + 100) 0 3, p))
round_example = get_loops-round 7 2 (λ i. i + 100)
