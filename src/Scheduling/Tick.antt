-- ===== src/Scheduling/Tick.antt =====
-- `ScheduleModule::tick_at` of nivasa-scheduling/src/lib.rs. The loop runs on fuel, and `none` means
-- that the fuel is used up.
pub mod Due
pub mod Rounds
pub mod Total
pub mod Endless
use nivasa.Prelude.{
  and_then, ltb, leb, ◌==◌, if◌then◌else◌, ==_iff, ==_refl, Bool-cases, Option-cases, is_some,
  is_none, length, is_empty, first, last, pop, pop-snoc, get_elem?, any, all, find, keep, replicate,
  length-append, All, All-append, All-map, Result, ◌>>=◌, map_err, Result-cases, >>=-eq-ok,
  ok-injective, ok, err, Text, codes, text_eq, text_eq_iff, text_eq_refl, strip_prefix, ends_with,
  starts_with, upper_char, to_ascii_uppercase, push_head, split, join, join_with, Lacks,
  split_whole, split-append, push_head-All, split-Lacks, keep-nonempty, is_whitespace, drop_while,
  drop_end, trim_start_matches, trim_end_matches, trim_matches, trim, ends_without, begins_without,
  drop_while_id, drop_end_id, last-drop_end, first-drop_while, last-append, trim_id, cmp_text,
  get_text, put_text, get_text-put_text, get_text-put_text_other, join-split, strip_text,
  strip_text-append, strip_text-eq-some, Below, insert_by, sort_by, IsSortedBy, insert_by-perm,
  sort_by-perm, IsPreorder, sort_by-IsSortedBy, mem, insert_set, remove_set, remove_set_fresh,
  remove_set_head, IsDistinct, lookup, insert_map, keys, mem-keys, lookup-insert_map, remove_map,
  adjust_map, keys-adjust_map, IsDistinct-remove_map, remove_map-adjust_map, count_outside,
  count_outside-le, count_outside-lt, Run, and_run, done, fail, and_run-eq-done, and_run-ne-none, ℕ,
  zero, suc, ◌+◌, ◌-◌, ◌*◌, ◌≤◌, ◌<◌, compare, Ordering, ◌≡◌, refl, sym, ap, ◌∙◌, subst, ◌≢◌, ◌↔◌,
  ◌⊎◌, inl, inr, Bool, true, false, ◌&&◌, ◌||◌, not, Option, none, some, List, [], ◌∷◌, ◌++◌, map,
  arith,
}
use nivasa.Scheduling.{
  Clock, ScheduleError, job_failed, ScheduledJob, ScheduledJobSnapshot, Jobs, snapshot_if_due,
  next_after,
}

module _ {Cron World : Type 0} where
  -- The first of those with the least time, as `min_by_key` gives it.
  abbrev pub earlier :
      ScheduledJobSnapshot Cron World
      → Option (ScheduledJobSnapshot Cron World)
      → ScheduledJobSnapshot Cron World
  earlier found none = found
  earlier found (some other) = if leb found.due_at other.due_at then found else other

  -- The snapshots of the jobs that are due, and the least of them.
  unfoldable pub next_due : ℕ → Jobs Cron World → Option (ScheduledJobSnapshot Cron World)
  next_due now [] = none
  next_due now ((id, job) ∷ jobs) =
      let rest = next_due now jobs in
      elim (snapshot_if_due now job) [ none ↦ rest | some found ↦ some (earlier found rest) ]

  -- The map after a job has fired: its next time is noted, or the job is removed.
  unfoldable pub reschedule : ℕ → Option ℕ → Jobs Cron World → Jobs Cron World
  reschedule id next jobs =
      let noted = adjust_map id (λ job. record job { next_fire_at = next }) jobs in
      if is_none next then remove_map id noted else noted

-- What a tick leaves: the jobs, the world, and the answer.
pub record Ticked (Cron World : Type 0) : Type 0 where
  pub jobs : Jobs Cron World
  pub world : World
  pub answer : Result ScheduleError (List ℕ)

module _ {Cron World : Type 0} (clock : Clock Cron) (now : ℕ) where
  -- The jobs after one round that fires the snapshot.
  abbrev pub fire : ScheduledJobSnapshot Cron World → Jobs Cron World → Jobs Cron World
  fire snapshot jobs =
      reschedule snapshot.id (next_after clock snapshot.schedule snapshot.due_at) jobs

  -- The end of a round: the next one, or the error of the handler.
  abbrev pub settle :
      (World → List ℕ → Option (Ticked Cron World))
      → ScheduledJobSnapshot Cron World
      → Jobs Cron World
      → List ℕ
      → World × Result Text (Unit {0})
      → Option (Ticked Cron World)
  settle continue snapshot jobs fired (world, ok done_value) =
      continue world (fired ++ (snapshot.id ∷ []))
  settle continue snapshot jobs fired (world, err message) =
      some (record { jobs = jobs; world = world; answer = err (job_failed snapshot.name message) })

  unfoldable pub tick_loop : ℕ → Jobs Cron World → World → List ℕ → Option (Ticked Cron World)
  tick_loop zero jobs world fired = none
  tick_loop (suc fuel) jobs world fired = elim (next_due now jobs) [
    | none ↦ some (record { jobs = jobs; world = world; answer = ok fired })
    | some snapshot ↦
        settle (tick_loop fuel (fire snapshot jobs)) snapshot (fire snapshot jobs) fired
          (snapshot.handler world)
  ]

  unfoldable pub tick_at : ℕ → Jobs Cron World → World → Option (Ticked Cron World)
  tick_at fuel jobs world = tick_loop fuel jobs world []
