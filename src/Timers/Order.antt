-- ===== src/Timers/Order.antt =====
-- When the timers are due.
use by_doing.Prelude.{
  ℕ, zero, suc, ◌+◌, ◌-◌, ◌<◌, ◌≤◌, ◌≡◌, ◌≢◌, ◌∙◌, ap, sym, refl, true, some, List, [], ◌∷◌, ◌++◌,
  map, length, arith, inl, inr, Bool-cases, dec_lt, ℕ_discrete,
}
use by_doing.Prelude.Int.{pos}
use by_doing.Prelude.Members.{elem, remove, elem-remove, length-remove}
use by_doing.Timers.{Timer, sink, expire, run_timers, add_timer, free_slot, time_requests, has_slot}

-- A time and a function.
abbrev pub Due : Type 0
Due = ℕ × ℕ

-- The times at which the timers of a chain are due, if `now` is the time.
unfoldable pub due : ℕ → List Timer → List Due
due now [] = []
due now (t ∷ ts) = (now + t.jiffies, t.fn) ∷ due (now + t.jiffies) ts

abbrev pub delay : ℕ → Due → Due
delay n (at, fn) = (at + n, fn)

unfoldable pub AllBefore : ℕ → List Due → Type 0
AllBefore time [] = Unit
AllBefore time ((at, fn) ∷ ds) = (at < time) × AllBefore time ds

unfoldable pub AllFrom : ℕ → List Due → Type 0
AllFrom time [] = Unit
AllFrom time ((at, fn) ∷ ds) = (time ≤ at) × AllFrom time ds

-- The last time of a list, or `now`.
unfoldable pub last_time : ℕ → List Due → ℕ
last_time now [] = now
last_time now ((at, fn) ∷ ds) = last_time at ds

due-delay : (now n : ℕ) (ts : List Timer) → due (now + n) ts ≡ map (delay n) (due now ts)
unfolding due
due-delay now n [] = refl
due-delay now n (t ∷ ts) =
    let same : now + n + t.jiffies ≡ now + t.jiffies + n = omega arith in
    ap (λ x. (x, t.fn) ∷ due x ts) same
    ∙ ap (λ l. (now + t.jiffies + n, t.fn) ∷ l) (due-delay (now + t.jiffies) n ts)

due-AllFrom : (now time : ℕ) (ts : List Timer) → time ≤ now → AllFrom time (due now ts)
unfolding due AllFrom
due-AllFrom now time [] h = tt
due-AllFrom now time (t ∷ ts) h = (omega arith, due-AllFrom (now + t.jiffies) time ts (omega arith))

-- The timers of a chain before and after a new one for `time` came.
pub record Added (now time fn : ℕ) (old new : List Due) : Type 0 where
  pub before : List Due
  pub after : List Due
  pub all : old ≡ before ++ after
  pub earlier : AllBefore time before
  pub later : AllFrom time after
  pub added : new ≡ before ++ ((time, fn) ∷ map (delay (time - last_time now before)) after)

Added-cons :
    (now time fn at f : ℕ) (old new : List Due)
    → at < time
    → Added at time fn old new
    → Added now time fn ((at, f) ∷ old) ((at, f) ∷ new)
unfolding last_time AllBefore
Added-cons now time fn at f old new less h = record {
  before = (at, f) ∷ h.before;
  after = h.after;
  all = ap (λ l. (at, f) ∷ l) h.all;
  earlier = (less, h.earlier);
  later = h.later;
  added = ap (λ l. (at, f) ∷ l) h.added;
}

sink_past :
    (p q : Timer) (qs : List Timer)
    → q.jiffies < p.jiffies
    → sink p (q ∷ qs)
      ≡ record { slot = p.slot; jiffies = q.jiffies; fn = q.fn }
        ∷ sink (record { slot = q.slot; jiffies = p.jiffies - q.jiffies; fn = p.fn }) qs
unfolding sink
sink_past p q qs h = ground (arith, h)

sink_stop : (p q : Timer) (qs : List Timer) → p.jiffies ≤ q.jiffies → sink p (q ∷ qs) ≡ p ∷ q ∷ qs
unfolding sink
sink_stop p q qs h = ground (arith, h)

sink-Added :
    (now : ℕ) (p : Timer) (ts : List Timer)
    → Added now (now + p.jiffies) p.fn (due now ts) (due now (sink p ts))
unfolding due sink last_time AllBefore AllFrom
sink-Added now p [] = record {
  before = [];
  after = [];
  all = refl;
  earlier = tt;
  later = tt;
  added = refl;
}
sink-Added now p (q ∷ qs) = elim (dec_lt q.jiffies p.jiffies) [
  | yes less ↦
      let rest =
        sink-Added (now + q.jiffies)
          (record { slot = q.slot; jiffies = p.jiffies - q.jiffies; fn = p.fn }) qs in
      let time : now + q.jiffies + (p.jiffies - q.jiffies) ≡ now + p.jiffies = omega arith in
      rw (sink_past p q qs less) (
        Added-cons now (now + p.jiffies) p.fn (now + q.jiffies) q.fn _ _ (omega arith)
          (rw time at rest))
  | no more ↦ rw (sink_stop p q qs (omega arith)) (record {
    before = [];
    after = due now (q ∷ qs);
    all = refl;
    earlier = tt;
    later = (omega arith, due-AllFrom (now + q.jiffies) (now + p.jiffies) qs (omega arith));
    added =
        ap (λ l. (now + p.jiffies, p.fn) ∷ l)
          (due-delay now p.jiffies (q ∷ qs)
            ∙ ap (λ n. map (delay n) (due now (q ∷ qs))) {x = p.jiffies} {y = now + p.jiffies - now}
                (omega arith));
  })
]

-- A free entry is found while there are fewer timers than entries.
slots : List Timer → List ℕ
slots ts = map (λ t. t.slot) ts

elem-slots : (s : ℕ) (ts : List Timer) → elem s (slots ts) ≡ has_slot s ts
unfolding slots elem has_slot
elem-slots s [] = refl
elem-slots s (t ∷ ts) = ground (arith, elem-slots s ts)

length-slots : (ts : List Timer) → length (slots ts) ≡ length ts
unfolding slots
length-slots [] = refl
length-slots (t ∷ ts) = ap suc (length-slots ts)

free_slot-found :
    (left s : ℕ) (ts : List Timer) (used : List ℕ)
    → length used < left
    → ((j : ℕ) → s ≤ j → has_slot j ts ≡ true → elem j used ≡ true)
    → (n : ℕ) × (free_slot left s ts ≡ some n)
unfolding free_slot
free_slot-found zero s ts used few all = absurd (omega arith)
free_slot-found (suc left) s ts used few all = elim (Bool-cases (has_slot s ts)) [
  | inr free ↦ (s, ground (arith, free))
  | inl taken ↦
      let member = all s (omega arith) taken in
      let (n, e) =
        free_slot-found left (suc s) ts (remove s used) (omega (arith, length-remove s used member))
          (λ j lt h. elem-remove s j used (omega arith) (all j (omega arith) h)) in
      (n, ground (arith, taken, e))
]

add_timer_run :
    (n fn s : ℕ) (ts : List Timer)
    → free_slot time_requests 0 ts ≡ some s
    → add_timer (pos (suc n)) (some fn) ts
      ≡ some ([], sink (record { slot = s; jiffies = suc n; fn = fn }) ts)
unfolding add_timer
add_timer_run n fn s ts e = ground (arith, e)

-- With fewer than 64 timers a function for a time above 0 is added and not called. The timers before that
-- time stay as they are and the new one is due at its time; but those that were due from then on are late
-- by the time between the new timer and the one before it.
pub add_timer-Added :
    (n fn : ℕ) (ts : List Timer)
    → length ts < time_requests
    → (ts' : List Timer) × (add_timer (pos (suc n)) (some fn) ts ≡ some ([], ts'))
      × Added 0 (suc n) fn (due 0 ts) (due 0 ts')
add_timer-Added n fn ts few =
    let (s, e) =
      free_slot-found time_requests 0 ts (slots ts) (omega (arith, length-slots ts))
        (λ j _ h. elem-slots j ts ∙ h) in
    let p : Timer = record { slot = s; jiffies = suc n; fn = fn } in
    let time : 0 + suc n ≡ suc n = omega arith in
    (sink p ts, add_timer_run n fn s ts e, rw time at (sink-Added 0 p ts))

-- One tick.
abbrev pub at_time : ℕ → List ℕ → List Due
at_time n [] = []
at_time n (f ∷ fs) = (n, f) ∷ at_time n fs

expire_now :
    (t : Timer) (ts : List Timer)
    → t.jiffies ≡ 0
    → expire (t ∷ ts) ≡ (t.fn ∷ (expire ts).0, (expire ts).1)
unfolding expire
expire_now t ts e = ground (arith, e)

expire_not : (t : Timer) (ts : List Timer) → t.jiffies ≢ 0 → expire (t ∷ ts) ≡ ([], t ∷ ts)
unfolding expire
expire_not t ts e = ground (arith, e)

expire-due : (ts : List Timer) → due 0 ts ≡ at_time 0 (expire ts).0 ++ due 0 (expire ts).1
unfolding due expire
expire-due [] = refl
expire-due (t ∷ ts) = elim (ℕ_discrete t.jiffies 0) [
  | yes e ↦
      ap (λ x. (x, t.fn) ∷ due x ts) {x = 0 + t.jiffies} {y = 0} (omega (arith, e))
      ∙ ap (λ l. (0, t.fn) ∷ l) (expire-due ts)
      ∙ sym (ap (λ r. at_time 0 r.0 ++ due 0 r.1) (expire_now t ts e))
  | no ne ↦ sym (ap (λ r. at_time 0 r.0 ++ due 0 r.1) (expire_not t ts ne))
]

at_time-delay :
    (fs : List ℕ) (ds : List Due)
    → map (delay 1) (at_time 0 fs ++ ds) ≡ at_time 1 fs ++ map (delay 1) ds
at_time-delay [] ds = refl
at_time-delay (f ∷ fs) ds =
    ap (λ n. (n, f) ∷ map (delay 1) (at_time 0 fs ++ ds)) {x = 0 + 1} {y = 1} (omega arith)
    ∙ ap (λ l. (1, f) ∷ l) (at_time-delay fs ds)

due_tick :
    (t : Timer) (ts : List Timer)
    → 0 < t.jiffies
    → due 0 (t ∷ ts) ≡ due (0 + 1) (record t { jiffies = t.jiffies - 1 } ∷ ts)
unfolding due
due_tick t ts h =
    ap (λ x. (x, t.fn) ∷ due x ts) {x = 0 + t.jiffies} {y = 0 + 1 + (t.jiffies - 1)} (omega arith)

-- A tick of a chain whose first time is above 0 calls exactly the functions that were due at 1, in their
-- order, and the others are due one tick sooner.
pub run_timers-due :
    (t : Timer) (ts : List Timer)
    → 0 < t.jiffies
    → due 0 (t ∷ ts)
      ≡ at_time 1 (run_timers (t ∷ ts)).0 ++ map (delay 1) (due 0 (run_timers (t ∷ ts)).1)
unfolding run_timers
run_timers-due t ts h =
    let t' = record t { jiffies = t.jiffies - 1 } in
    due_tick t ts h
    ∙ due-delay 0 1 (t' ∷ ts)
    ∙ ap (map (delay 1)) (expire-due (t' ∷ ts))
    ∙ at_time-delay (expire (t' ∷ ts)).0 (due 0 (expire (t' ∷ ts)).1)
