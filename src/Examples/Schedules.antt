-- ===== src/Examples/Schedules.antt =====
-- Tests and witnesses for the scheduler: a clock without an end, no cron expressions, and handlers
-- that count their calls in the world.
use nivasa.Prelude.{ok, err, codes, insert_map, ℕ, ◌+◌, ◌≤◌, ◌≡◌, refl, none, some, [], ◌∷◌, arith}
use nivasa.Scheduling.{
  Clock, invalid_interval_duration, interval_job, timeout_job, Handler, ScheduledJob,
  ScheduledJobSnapshot, Jobs, register_interval, register_interval_at, next_after, add_duration,
  snapshot_if_due,
}
use nivasa.Scheduling.Tick.{next_due, reschedule, fire, tick_loop, tick_at}
use nivasa.Scheduling.Tick.Due.{IsClock, IsValid}
use nivasa.Scheduling.Tick.Total.{fire_order}
use nivasa.Scheduling.Tick.Endless.{zero_job, register_interval-endless}

abbrev clock : Clock ℕ
clock = record {
  parse_cron = λ expression. err (codes "no cron");
  cron_after = λ schedule after. none;
  from_std = λ duration. some duration;
  checked_add_signed = λ time duration. some (time + duration);
  show_duration = λ duration. duration ∷ [];
}

clock-IsClock : IsClock clock
clock-IsClock = record { converts = λ d c e. cc; adds = λ t d s e. cc; fires_later = λ c t s e. cc }

abbrev counts : Handler ℕ
counts world = (world + 1, ok tt)

abbrev every_ten : ScheduledJob ℕ ℕ
every_ten = record {
  id = 1;
  name = codes "every";
  schedule = interval_job 10;
  handler = counts;
  next_fire_at = some 10;
}

abbrev once : ScheduledJob ℕ ℕ
once = record {
  id = 2;
  name = codes "once";
  schedule = timeout_job 15;
  handler = counts;
  next_fire_at = some 15;
}

abbrev two_jobs : Jobs ℕ ℕ
two_jobs = (1, every_ten) ∷ (2, once) ∷ []

two_jobs-IsValid : IsValid two_jobs
two_jobs-IsValid = record { distinct = (refl, (refl, tt)); keyed = (refl, (refl, tt)) }

-- At 25 the interval has fired at 10 and 20, the timeout at 15, and only the interval is left.
ticks :
    tick_at clock 25 40 two_jobs 0
    ≡ some (record {
      jobs = (1, record every_ten { next_fire_at = some 30 }) ∷ [];
      world = 3;
      answer = ok (1 ∷ 2 ∷ 1 ∷ []);
    })
unfolding tick_at tick_loop next_due reschedule next_after add_duration snapshot_if_due
ticks = refl

abbrev snapshot : ScheduledJob ℕ ℕ → ℕ → ScheduledJobSnapshot ℕ ℕ
snapshot job due_at = record {
  id = job.id;
  name = job.name;
  schedule = job.schedule;
  handler = job.handler;
  due_at = due_at;
}

first_pick : next_due 25 two_jobs ≡ some (snapshot every_ten 10)
unfolding next_due snapshot_if_due
first_pick = refl

second_pick : next_due 25 (fire clock 25 (snapshot every_ten 10) two_jobs) ≡ some (snapshot once 15)
unfolding next_due snapshot_if_due reschedule next_after add_duration
second_pick = refl

fire_order_example : 10 ≤ 15
fire_order_example =
    fire_order clock clock-IsClock 25 two_jobs (snapshot every_ten 10) (snapshot once 15)
      two_jobs-IsValid first_pick second_pick

-- A job that fires without end, beside two others.
abbrev with_zero : Jobs ℕ ℕ
with_zero = insert_map 4 (zero_job clock counts 4 (codes "zero") 100) two_jobs

register_interval-endless_example :
    (register_interval_at clock 4 (codes "zero") 0 100 counts two_jobs
      ≡ err (invalid_interval_duration 0))
    × (register_interval clock 4 (codes "zero") 0 100 counts two_jobs ≡ ok (with_zero, 4))
    × (tick_at clock 100 1000 with_zero 0 ≡ none)
register_interval-endless_example =
    register_interval-endless clock counts 4 (codes "zero") 100 refl refl two_jobs 100 1000 0
      two_jobs-IsValid ((λ world. refl), ((λ world. refl), tt)) (λ world. refl) (omega arith)
