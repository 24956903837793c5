-- ===== src/Scheduling.antt =====
-- The crate nivasa-scheduling (nivasa-scheduling/src/lib.rs): patterns, jobs, and the module that
-- keeps and fires them.
--
-- A time and a duration are numbers of nanoseconds from the first time that chrono has. The libraries
-- are parameters: the record `Clock` has chrono's conversion and addition, which fail out of range,
-- and the cron crate's parser and next fire time. An identifier is the number that `Uuid::new_v4`
-- gives to a registration. A handler is a function on the state of the world outside, `World`, that
-- returns its result; the handlers here do not call the scheduler. The awaits of the source order the
-- calls of one task, and the model is one task.
pub mod Tick
use nivasa.Prelude.{
  and_then, ltb, leb, ◌==◌, if◌then◌else◌, ==_iff, ==_refl, Bool-cases, Option-cases, is_some,
  is_none, length, is_empty, first, last, pop, pop-snoc, get_elem?, any, all, find, keep, replicate,
  length-append, All, All-append, All-map, Result, ◌>>=◌, map_err, Result-cases, >>=-eq-ok,
  ok-injective, ok, err, Text, codes, text_eq, text_eq_iff, text_eq_refl, strip_prefix, ends_with,
  starts_with, upper_char, to_ascii_uppercase, push_head, split, join, join_with, Lacks,
  split_whole, split-append, push_head-All, split-Lacks, keep-nonempty, is_whitespace, drop_while,
  drop_end, trim_start_matches, trim_end_matches, trim_matches, trim, ends_without, begins_without,
  drop_while_id, drop_end_id, last-drop_end, first-drop_while, last-append, trim_id, cmp_text,
  get_text, put_text, get_text-put_text, get_text-put_text_other, join-split, strip_text,
  strip_text-append, strip_text-eq-some, Below, insert_by, sort_by, IsSortedBy, insert_by-perm,
  sort_by-perm, IsPreorder, sort_by-IsSortedBy, mem, insert_set, remove_set, remove_set_fresh,
  remove_set_head, IsDistinct, lookup, insert_map, keys, mem-keys, lookup-insert_map, remove_map,
  adjust_map, keys-adjust_map, IsDistinct-remove_map, remove_map-adjust_map, count_outside,
  count_outside-le, count_outside-lt, Run, and_run, done, fail, and_run-eq-done, and_run-ne-none, ℕ,
  zero, suc, ◌+◌, ◌-◌, ◌*◌, ◌≤◌, ◌<◌, compare, Ordering, ◌≡◌, refl, sym, ap, ◌∙◌, subst, ◌≢◌, ◌↔◌,
  ◌⊎◌, inl, inr, Bool, true, false, ◌&&◌, ◌||◌, not, Option, none, some, List, [], ◌∷◌, ◌++◌, map,
  arith,
}

pub data ScheduleError : Type 0 where
  invalid_cron_expression : (expression message : Text) → ScheduleError
  no_upcoming_fire_time : (expression : Text) → ScheduleError
  job_failed : (job_name message : Text) → ScheduleError
  invalid_interval_duration : (every_ms : ℕ) → ScheduleError

pub record Clock (Cron : Type 0) : Type 0 where
  pub parse_cron : Text → Result Text Cron
  pub cron_after : Cron → ℕ → Option ℕ
  pub from_std : ℕ → Option ℕ
  pub checked_add_signed : ℕ → ℕ → Option ℕ
  pub show_duration : ℕ → Text

pub data SchedulePattern : Type 0 where
  cron : (expression : Text) → SchedulePattern
  interval : (every : ℕ) → SchedulePattern
  timeout : (delay : ℕ) → SchedulePattern

pub record CronSchedule (Cron : Type 0) : Type 0 where
  pub expression : Text
  pub schedule : Cron

pub data ScheduledJobSchedule (Cron : Type 0) : Type 0 where
  cron_job : (expression : Text) (schedule : CronSchedule Cron) → ScheduledJobSchedule Cron
  interval_job : (every : ℕ) → ScheduledJobSchedule Cron
  timeout_job : (delay : ℕ) → ScheduledJobSchedule Cron

abbrev pub Handler : Type 0 → Type 0
Handler World = World → World × Result Text (Unit {0})

pub record ScheduledJobInfo : Type 0 where
  pub id : ℕ
  pub name : Text
  pub pattern : SchedulePattern
  pub next_fire_at : Option ℕ

pub record ScheduledJob (Cron World : Type 0) : Type 0 where
  pub id : ℕ
  pub name : Text
  pub schedule : ScheduledJobSchedule Cron
  pub handler : Handler World
  pub next_fire_at : Option ℕ

pub record ScheduledJobSnapshot (Cron World : Type 0) : Type 0 where
  pub id : ℕ
  pub name : Text
  pub schedule : ScheduledJobSchedule Cron
  pub handler : Handler World
  pub due_at : ℕ

-- The map of `ScheduleModule`.
abbrev pub Jobs : Type 0 → Type 0 → Type 0
Jobs Cron World = List (ℕ × ScheduledJob Cron World)

unfoldable pub pattern : {Cron : Type 0} → ScheduledJobSchedule Cron → SchedulePattern
pattern (cron_job expression schedule) = cron expression
pattern (interval_job every) = interval every
pattern (timeout_job delay) = timeout delay

module _ {Cron : Type 0} (clock : Clock Cron) where
  unfoldable pub parse_schedule : Text → Result ScheduleError (CronSchedule Cron)
  parse_schedule expression = do
    schedule ← map_err (invalid_cron_expression expression) (clock.parse_cron expression)
    ok (record { expression = expression; schedule = schedule })

  unfoldable pub from_pattern : SchedulePattern → Result ScheduleError (ScheduledJobSchedule Cron)
  from_pattern (cron expression) = do
    schedule ← parse_schedule expression
    ok (cron_job expression schedule)
  from_pattern (interval every) = ok (interval_job every)
  from_pattern (timeout delay) = ok (timeout_job delay)

  -- `after.checked_add_signed(duration_to_chrono(duration)?)`.
  unfoldable pub add_duration : ℕ → ℕ → Option ℕ
  add_duration time duration = and_then (clock.from_std duration) (clock.checked_add_signed time)

  unfoldable pub initial_fire_at : ScheduledJobSchedule Cron → ℕ → Option ℕ
  initial_fire_at (cron_job expression schedule) now = clock.cron_after schedule.schedule now
  initial_fire_at (interval_job every) now = add_duration now every
  initial_fire_at (timeout_job delay) now = add_duration now delay

  unfoldable pub next_after : ScheduledJobSchedule Cron → ℕ → Option ℕ
  next_after (cron_job expression schedule) after = clock.cron_after schedule.schedule after
  next_after (interval_job every) after = add_duration after every
  next_after (timeout_job delay) after = none

  -- The text of the error for a schedule without a first fire time.
  unfoldable pub schedule_label : ScheduledJobSchedule Cron → Text
  schedule_label (cron_job expression schedule) = expression
  schedule_label (interval_job every) = codes "interval:" ++ clock.show_duration every
  schedule_label (timeout_job delay) = codes "timeout:" ++ clock.show_duration delay

module _ {Cron World : Type 0} where
  unfoldable pub info : ScheduledJob Cron World → ScheduledJobInfo
  info self = record {
    id = self.id;
    name = self.name;
    pattern = pattern self.schedule;
    next_fire_at = self.next_fire_at;
  }

  unfoldable pub snapshot_if_due :
      ℕ → ScheduledJob Cron World → Option (ScheduledJobSnapshot Cron World)
  snapshot_if_due now self = and_then self.next_fire_at λ next_fire_at.
      if ltb now next_fire_at
      then none
      else some (record {
        id = self.id;
        name = self.name;
        schedule = self.schedule;
        handler = self.handler;
        due_at = next_fire_at;
      })

  unfoldable pub remove_job : ℕ → Jobs Cron World → Jobs Cron World × Bool
  remove_job id self = (remove_map id self, is_some (lookup id self))

  unfoldable pub job : ℕ → Jobs Cron World → Option ScheduledJobInfo
  job id self = and_then (lookup id self) λ found. some (info found)

  unfoldable pub job_count : Jobs Cron World → ℕ
  job_count self = length self

  unfoldable pub jobs : Jobs Cron World → List ScheduledJobInfo
  jobs self = map (λ (entry : ℕ × ScheduledJob Cron World). info entry.1) self

  unfoldable pub next_fire_at : ℕ → Jobs Cron World → Option ℕ
  next_fire_at id self = and_then (lookup id self) λ found. found.next_fire_at

module _ {Cron World : Type 0} (clock : Clock Cron) where
  -- `ScheduledJob::new`, with the identifier that it draws.
  unfoldable pub new_job :
      ℕ
      → Text
      → ScheduledJobSchedule Cron
      → Handler World
      → ℕ
      → Result ScheduleError (ScheduledJob Cron World)
  new_job id name schedule handler now = elim (initial_fire_at clock schedule now) [
    | none ↦ err (no_upcoming_fire_time (schedule_label clock schedule))
    | some first_fire ↦ ok (record {
      id = id;
      name = name;
      schedule = schedule;
      handler = handler;
      next_fire_at = some first_fire;
    })
  ]

  unfoldable pub register_job :
      ℕ
      → Text
      → ScheduledJobSchedule Cron
      → ℕ
      → Handler World
      → Jobs Cron World
      → Result ScheduleError (Jobs Cron World × ℕ)
  register_job id name schedule now handler self = do
    found ← new_job id name schedule handler now
    ok (insert_map id found self, id)

  unfoldable pub register_pattern_at :
      ℕ
      → Text
      → SchedulePattern
      → ℕ
      → Handler World
      → Jobs Cron World
      → Result ScheduleError (Jobs Cron World × ℕ)
  register_pattern_at id name given now handler self = do
    schedule ← from_pattern clock given
    register_job id name schedule now handler self

  -- `register_cron` and `register_cron_at`, at the time `now`.
  unfoldable pub register_cron_at :
      ℕ
      → Text
      → Text
      → ℕ
      → Handler World
      → Jobs Cron World
      → Result ScheduleError (Jobs Cron World × ℕ)
  register_cron_at id name expression now handler self =
      register_pattern_at id name (cron expression) now handler self

  -- `register_interval` at the time `now` of the system's clock.
  unfoldable pub register_interval :
      ℕ
      → Text
      → ℕ
      → ℕ
      → Handler World
      → Jobs Cron World
      → Result ScheduleError (Jobs Cron World × ℕ)
  register_interval id name every now handler self =
      register_pattern_at id name (interval every) now handler self

  -- An error holds the duration in milliseconds, which is zero.
  unfoldable pub register_interval_at :
      ℕ
      → Text
      → ℕ
      → ℕ
      → Handler World
      → Jobs Cron World
      → Result ScheduleError (Jobs Cron World × ℕ)
  register_interval_at id name every now handler self =
      let registered = register_pattern_at id name (interval every) now handler self in
      if every == 0 then err (invalid_interval_duration 0) else registered

  -- `register_timeout` and `register_timeout_at`, at the time `now`.
  unfoldable pub register_timeout_at :
      ℕ
      → Text
      → ℕ
      → ℕ
      → Handler World
      → Jobs Cron World
      → Result ScheduleError (Jobs Cron World × ℕ)
  register_timeout_at id name delay now handler self =
      register_pattern_at id name (timeout delay) now handler self
