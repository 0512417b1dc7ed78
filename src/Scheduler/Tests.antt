-- ===== src/Scheduler/Tests.antt =====
-- The scheduler at concrete values.
use by_doing.Prelude.{◌≡◌, ◌≢◌, refl, none, some, arith}
use by_doing.Scheduler.Samples.{idle, spent, others, kernel}
use by_doing.Scheduler.Calls.{sleep_on, wake_up, put_task, write_log}
use by_doing.Scheduler.Sleep.{sleep_on-wake_up}
use by_doing.Scheduler.{
  Task, Kernel, task_at, uninterruptible, became_ready, running, schedule, check_tasks,
}
use by_doing.Scheduler.Switch.{Scheduled, schedule-Scheduled}

schedule_example :
    (k : Kernel) × (schedule kernel ≡ some k) × Scheduled (check_tasks 7 others).0 idle kernel k
schedule_example =
    schedule-Scheduled kernel idle others refl
      ((omega arith, omega arith), ((omega arith, omega arith), tt)) (spent, refl)

-- The task 1 sleeps on a queue whose head is the task 3.
sleep_example :
    (k : Kernel) × (sleep_on kernel (some 3) ≡ some (some 3, some 1, k))
    × (k.current ≢ 1)
    × (u : Task) × (task_at k.tasks 1 ≡ some u)
    × (u.pid ≡ 1)
    × (u.state ≡ uninterruptible)
    × (wake_up k (some 1)
        ≡ some (none, write_log (put_task k 1 (record u { state = running })) 1 became_ready))
sleep_example =
    sleep_on-wake_up kernel idle spent others 0 (some 3) refl refl refl
      ((omega arith, omega arith), ((omega arith, omega arith), tt))
