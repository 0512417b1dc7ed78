-- ===== src/Timers.antt =====
-- OS/process/sched.c: `add_timer`, and the timers of `do_timer`. The chain from `next_timer` is a list; an
-- entry of `timer_list` is its number, and its `fn` is null where the chain does not have it. A function is
-- a number, and those that are called are part of the result: they leave the timers alone.
pub mod Order
mod Tests
use by_doing.Prelude.{
  ℕ, zero, suc, ◌-◌, Bool, true, false, Option, none, some, List, [], ◌∷◌, ltb, ◌==◌, if◌then◌else◌,
}
use by_doing.Prelude.Int.{ℤ, pos, negsuc}

-- A `jiffies` is above 0 in the chain, and counts from the timer before.
pub record Timer : Type 0 where
  pub slot : ℕ
  pub jiffies : ℕ
  pub fn : ℕ

abbrev pub time_requests : ℕ
time_requests = 64

unfoldable pub has_slot : ℕ → List Timer → Bool
has_slot s [] = false
has_slot s (t ∷ ts) = let later = has_slot s ts in if t.slot == s then true else later

-- The first entry that is free, with the entries that are left to look at.
unfoldable pub free_slot : ℕ → ℕ → List Timer → Option ℕ
unfolding has_slot
free_slot zero s ts = none
free_slot (suc left) s ts = if has_slot s ts then free_slot left (suc s) ts else some s

-- The loop: two neighbours swap their functions and times, but not their entries.
unfoldable pub sink : Timer → List Timer → List Timer
sink p [] = p ∷ []
sink p (q ∷ qs) =
    let later = sink (record { slot = q.slot; jiffies = p.jiffies - q.jiffies; fn = p.fn }) qs in
    if ltb q.jiffies p.jiffies
    then record { slot = p.slot; jiffies = q.jiffies; fn = q.fn } ∷ later
    else p ∷ q ∷ qs

-- What is called at once, and the chain; `none` is the panic where no entry is free.
unfoldable pub add_timer : ℤ → Option ℕ → List Timer → Option (List ℕ × List Timer)
unfolding free_slot sink
add_timer jiffies none ts = some ([], ts)
add_timer (negsuc _) (some fn) ts = some (fn ∷ [], ts)
add_timer (pos zero) (some fn) ts = some (fn ∷ [], ts)
add_timer (pos (suc n)) (some fn) ts = elim (free_slot time_requests 0 ts) [
  | none ↦ none
  | some s ↦ some ([], sink (record { slot = s; jiffies = suc n; fn = fn }) ts)
]

-- `while (next_timer && next_timer->jiffies <= 0)`
unfoldable pub expire : List Timer → List ℕ × List Timer
expire [] = ([], [])
expire (t ∷ ts) =
    let (called, rest) = expire ts in if t.jiffies == 0 then (t.fn ∷ called, rest) else ([], t ∷ ts)

-- The timers' part of `do_timer`.
unfoldable pub run_timers : List Timer → List ℕ × List Timer
unfolding expire
run_timers [] = ([], [])
run_timers (t ∷ ts) = expire (record t { jiffies = t.jiffies - 1 } ∷ ts)
