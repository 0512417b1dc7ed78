-- ===== src/Process/Ticks.antt =====
-- `do_timer` keeps the invariant of the table of tasks.
use by_doing.Prelude.{
  ℕ, ◌≡◌, refl, Bool, true, false, ◌&&◌, some, List, [], ◌∷◌, ◌==◌, arith, Bool-cases, Option-cases,
  inl, inr, ◌⊎◌,
}
use by_doing.Scheduler.{Task, Kernel, task_at}
use by_doing.Scheduler.Calls.{put_task, wake_up, make_running, tick}
use by_doing.Scheduler.Sound.{IsSound, current_task}
use by_doing.Clock.{
  Drive, run_drive, do_floppy_timer, any_motor, motors_run, count_time, Clock, do_timer,
}
use by_doing.Process.Steps.{put_task-IsSound, make_running-IsSound, tick-IsSound, same_run}

run_drive-cases :
    (k k' : Kernel) (d d' : Drive)
    → run_drive k d ≡ some (k', d')
    → (k' ≡ k) ⊎ (make_running k d.wait_motor ≡ some k')
unfolding run_drive wake_up
run_drive-cases k k' d d' e = elim (Bool-cases (d.motor && (d.mon_timer == 1))) [
  | inr other ↦ inl (ground (arith, e, other))
  | inl last ↦ elim (Option-cases (make_running k d.wait_motor)) [
    | inl gone ↦ absurd (ground (arith, e, last, gone))
    | inr (k1, run) ↦ inr (ground (arith, e, last, run))
  ]
]

run_drive-IsSound :
    (k k' : Kernel) (d d' : Drive) → IsSound k → run_drive k d ≡ some (k', d') → IsSound k'
run_drive-IsSound k k' d d' s e = elim (run_drive-cases k k' d d' e) [
  | inl same ↦ rw same s
  | inr run ↦ make_running-IsSound k k' d.wait_motor s run
]

do_floppy_timer-IsSound :
    (k k' : Kernel) (ds ds' : List Drive)
    → IsSound k
    → do_floppy_timer k ds ≡ some (k', ds')
    → IsSound k'
unfolding do_floppy_timer
do_floppy_timer-IsSound k k' [] ds' s e = let same : k ≡ k' = ground (arith, e) in rw same at s
do_floppy_timer-IsSound k k' (d ∷ ds) ds' s e = elim (Option-cases (run_drive k d)) [
  | inl gone ↦ absurd (ground (arith, e, gone))
  | inr ((k1, d1), first) ↦ elim (Option-cases (do_floppy_timer k1 ds)) [
    | inl gone ↦ absurd (ground (arith, e, first, gone))
    | inr ((k2, ds2), rest) ↦
        let same : k2 ≡ k' = ground (arith, e, first, rest) in
        rw same at (do_floppy_timer-IsSound k1 k2 ds ds2 (run_drive-IsSound k k1 d d1 s first) rest)
  ]
]

motors_run-IsSound :
    (k k' : Kernel) (ds ds' : List Drive)
    → IsSound k
    → motors_run k ds ≡ some (k', ds')
    → IsSound k'
motors_run-IsSound k k' ds ds' s e = elim (Bool-cases (any_motor ds)) [
  | inl on ↦ do_floppy_timer-IsSound k k' ds ds' s (ground (arith, e, on))
  | inr off ↦ let same : k ≡ k' = ground (arith, e, off) in rw same at s
]

count_time-same :
    (user : Bool) (t : Task)
    → ((count_time user t).pid ≡ t.pid) × ((count_time user t).priority ≡ t.priority)
count_time-same true t = (refl, refl)
count_time-same false t = (refl, refl)

-- What a run of `do_timer` went through.
do_timer-parts :
    (k k' : Kernel) (t : Task) (c c' : Clock) (user : Bool) (called : List ℕ)
    → task_at k.tasks k.current ≡ some t
    → do_timer k c user ≡ some (called, c', k')
    → (k1 : Kernel) × (ds : List Drive) × (motors_run
          (put_task k k.current (count_time user t))
          c.drives
        ≡ some (k1, ds))
      × (tick k1 user ≡ some k')
unfolding do_timer
do_timer-parts k k' t c c' user called at e =
    elim (Option-cases (motors_run (put_task k k.current (count_time user t)) c.drives)) [
      | inl gone ↦ absurd (ground (arith, e, at, gone))
      | inr ((k1, ds), first) ↦ elim (Option-cases (tick k1 user)) [
        | inl gone ↦ absurd (ground (arith, e, at, first, gone))
        | inr (k2, last) ↦ (k1, ds, first, ground (arith, e, at, first, last))
      ]
    ]

pub do_timer-IsSound :
    (k k' : Kernel) (c c' : Clock) (user : Bool) (called : List ℕ)
    → IsSound k
    → do_timer k c user ≡ some (called, c', k')
    → IsSound k'
do_timer-IsSound k k' c c' user called s e =
    let (t, here, at) = current_task k s in
    let (k1, ds, first, last) = do_timer-parts k k' t c c' user called at e in
    let (pid, priority) = count_time-same user t in
    let counted = put_task-IsSound k k.current t (count_time user t) here pid priority s in
    let sound =
      motors_run-IsSound (put_task k k.current (count_time user t)) k1 c.drives ds counted first in
    let (k2, run, sound') = tick-IsSound k1 user sound in
    same_run (tick k1 user) k2 k' run sound' last
