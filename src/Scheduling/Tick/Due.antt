-- ===== src/Scheduling/Tick/Due.antt =====
-- The job that a round of `tick_at` picks, and the jobs after it.
use nivasa.Prelude.{
  some-injective, ltb, leb, ◌==◌, ==_iff, Bool-cases, Option-cases, is_some, All, All-map, mem,
  IsDistinct, lookup, keys, mem-keys, ℕ, ◌+◌, ◌≤◌, ◌<◌, ◌≡◌, refl, sym, ap, ◌∙◌, ◌⊎◌, inl, inr,
  true, false, none, some, [], ◌∷◌, arith,
}
use nivasa.Scheduling.{
  Clock, ScheduledJobSchedule, cron_job, interval_job, timeout_job, ScheduledJob,
  ScheduledJobSnapshot, Jobs, snapshot_if_due, next_after, add_duration,
}
use nivasa.Scheduling.Tick.{next_due}

-- What the libraries promise: conversion and addition are exact where they succeed, and a cron
-- schedule fires later than the time it is asked about.
pub record IsClock {Cron : Type 0} (clock : Clock Cron) : Type 0 where
  pub converts : (d c : ℕ) → clock.from_std d ≡ some c → c ≡ d
  pub adds : (t d s : ℕ) → clock.checked_add_signed t d ≡ some s → s ≡ t + d
  pub fires_later : (c : Cron) (t s : ℕ) → clock.cron_after c t ≡ some s → t < s

-- An interval has a length.
abbrev pub IsAdvancing : {Cron : Type 0} → ScheduledJobSchedule Cron → Type 0
IsAdvancing (cron_job expression schedule) = Unit
IsAdvancing (interval_job every) = 0 < every
IsAdvancing (timeout_job delay) = Unit

module _ {Cron World : Type 0} where
  abbrev pub AllJobs : (ScheduledJob Cron World → Type 0) → Jobs Cron World → Type 0
  AllJobs P jobs = All (λ (entry : ℕ × ScheduledJob Cron World). P entry.1) jobs

  -- Every job stands under its own identifier, and no two under one.
  pub record IsValid (jobs : Jobs Cron World) : Type 0 where
    pub distinct : IsDistinct (keys jobs)
    pub keyed : All (λ (entry : ℕ × ScheduledJob Cron World). entry.1.id ≡ entry.0) jobs

  -- The next fire time, if there is one, is not before the given time.
  abbrev pub NotBefore : ℕ → ScheduledJob Cron World → Type 0
  NotBefore time job = (t : ℕ) → job.next_fire_at ≡ some t → time ≤ t

  -- The job is not due.
  abbrev pub NotDue : ℕ → ScheduledJob Cron World → Type 0
  NotDue now job = (t : ℕ) → job.next_fire_at ≡ some t → now < t

  -- The snapshot is of a job of the map, which is due, and none is due earlier.
  pub record IsNext (now : ℕ) (jobs : Jobs Cron World) (s : ScheduledJobSnapshot Cron World)
      : Type 0 where
    pub job : ScheduledJob Cron World
    pub stored : lookup s.id jobs ≡ some job
    pub noted : job.next_fire_at ≡ some s.due_at
    pub same_schedule : job.schedule ≡ s.schedule
    pub same_handler : job.handler ≡ s.handler
    pub is_due : s.due_at ≤ now
    pub least : AllJobs (NotBefore s.due_at) jobs

  snapshot_cases :
      (now : ℕ) (job : ScheduledJob Cron World)
      → ((snapshot_if_due now job ≡ none) × NotDue now job)
        ⊎ ((t : ℕ) × (job.next_fire_at ≡ some t)
            × (t ≤ now)
            × (snapshot_if_due now job
                ≡ some (record {
                  id = job.id;
                  name = job.name;
                  schedule = job.schedule;
                  handler = job.handler;
                  due_at = t;
                })))
  unfolding snapshot_if_due
  snapshot_cases now job = elim (Option-cases job.next_fire_at) [
    | inl h ↦ inl (rw (h, snapshot_if_due) refl, λ t e. cc)
    | inr (t, h) ↦ elim (Bool-cases (ltb now t)) [
      | inl late ↦ inl (
        rw (h, snapshot_if_due) (rw late refl),
        λ s e. omega (arith, after_now late, some-injective (sym h ∙ e)),
      )
      | inr due ↦ inr (t, h, ground arith, rw (h, snapshot_if_due) (rw due refl))
    ]
  ]
    where
      after_now : {t : ℕ} → ltb now t ≡ true → now < t
      after_now late = ground arith

  -- A tail of a valid map is valid, and its identifiers differ from the first.
  tail-IsValid :
      (id : ℕ) (job : ScheduledJob Cron World) (jobs : Jobs Cron World)
      → IsValid ((id, job) ∷ jobs)
      → IsValid jobs
  tail-IsValid id job jobs v = record { distinct = v.distinct.1; keyed = v.keyed.1 }

  fresh_head :
      (id k : ℕ) (job found : ScheduledJob Cron World) (jobs : Jobs Cron World)
      → IsValid ((id, job) ∷ jobs)
      → lookup k jobs ≡ some found
      → (id == k) ≡ false
  fresh_head id k job found jobs v here = elim (Bool-cases (id == k)) [
    | inr h ↦ h
    | inl h ↦ cc (
        sym v.distinct.0
        ∙ ap (λ i. mem i (keys jobs)) ((==_iff id k).0 h)
        ∙ mem-keys k jobs
        ∙ ap is_some here)
  ]

  NotDue-NotBefore :
      (now time : ℕ) (job : ScheduledJob Cron World)
      → NotDue now job
      → time ≤ now
      → NotBefore time job
  NotDue-NotBefore now time job late h t e = omega (arith, late t e, h)

  AllJobs-map :
      {P Q : ScheduledJob Cron World → Type 0} (jobs : Jobs Cron World)
      → ((job : ScheduledJob Cron World) → P job → Q job)
      → AllJobs P jobs
      → AllJobs Q jobs
  AllJobs-map jobs f h = All-map jobs (λ entry. f entry.1) h

  NotBefore-le :
      (early late : ℕ) (job : ScheduledJob Cron World)
      → early ≤ late
      → NotBefore late job
      → NotBefore early job
  NotBefore-le early late job h k t e = omega (arith, h, k t e)

  -- The job at the head, if it is due, or the next one behind it.
  IsNext-cons :
      (now id : ℕ) (job : ScheduledJob Cron World) (jobs : Jobs Cron World)
      (s : ScheduledJobSnapshot Cron World)
      → IsValid ((id, job) ∷ jobs)
      → IsNext now jobs s
      → NotBefore s.due_at job
      → IsNext now ((id, job) ∷ jobs) s
  IsNext-cons now id job jobs s v next early = record {
    job = next.job;
    stored = rw (fresh_head id s.id job next.job jobs v next.stored) next.stored;
    noted = next.noted;
    same_schedule = next.same_schedule;
    same_handler = next.same_handler;
    is_due = next.is_due;
    least = (early, next.least);
  }

  -- A round either finds no job that is due, or picks one that is due first.
  pub next_due_cases :
      (now : ℕ) (jobs : Jobs Cron World)
      → IsValid jobs
      → ((next_due now jobs ≡ none) × AllJobs (NotDue now) jobs)
        ⊎ ((s : ScheduledJobSnapshot Cron World) × (next_due now jobs ≡ some s) × IsNext now jobs s)
  unfolding next_due
  next_due_cases now [] v = inl (refl, tt)
  next_due_cases now ((id, job) ∷ jobs) v = elim (snapshot_cases now job) [
    | inl (skipped, late) ↦ elim (next_due_cases now jobs (tail-IsValid id job jobs v)) [
      | inl (bare, rest) ↦ inl (rw (skipped, next_due) bare, (late, rest))
      | inr (s, found, next) ↦ inr (
        s,
        rw (skipped, next_due) found,
        IsNext-cons now id job jobs s v next (NotDue-NotBefore now s.due_at job late next.is_due),
      )
    ]
    | inr (t, noted, due, snap) ↦ elim (next_due_cases now jobs (tail-IsValid id job jobs v)) [
      | inl (bare, rest) ↦ inr (
        _,
        rw (snap, next_due) (rw bare refl),
        head_first t noted due
            (AllJobs-map jobs (λ j late. NotDue-NotBefore now t j late due) rest),
      )
      | inr (s, found, next) ↦ elim (Bool-cases (leb t s.due_at)) [
        | inl sooner ↦ inr (
          _,
          rw (snap, next_due) (rw found (rw sooner refl)),
          head_first t noted due
              (AllJobs-map jobs (λ j k. NotBefore-le t s.due_at j (ground arith) k) next.least),
        )
        | inr other ↦ inr (
          s,
          rw (snap, next_due) (rw found (rw other refl)),
          IsNext-cons now id job jobs s v next
              (λ u e. omega (arith, some-injective (sym noted ∙ e), after_next t s.due_at other)),
        )
      ]
    ]
  ]
    where
      after_next : (a b : ℕ) → leb a b ≡ false → b ≤ a
      after_next a b h = ground arith

      head_first :
          (t : ℕ)
          → job.next_fire_at ≡ some t
          → t ≤ now
          → AllJobs (NotBefore t) jobs
          → IsNext now ((id, job) ∷ jobs) (record {
            id = job.id;
            name = job.name;
            schedule = job.schedule;
            handler = job.handler;
            due_at = t;
          })
      head_first t noted due rest = record {
        job = job;
        stored = rw ((==_iff id job.id).1 (sym v.keyed.0)) refl;
        noted = noted;
        same_schedule = refl;
        same_handler = refl;
        is_due = due;
        least = ((λ u e. omega (arith, some-injective (sym noted ∙ e))), rest);
      }

-- A job that has fired does not fire earlier: only an interval of zero gives the same time again.
pub next_after-le :
    {Cron : Type 0} (clock : Clock Cron) (schedule : ScheduledJobSchedule Cron) (t s : ℕ)
    → IsClock clock
    → next_after clock schedule t ≡ some s
    → t ≤ s
unfolding next_after add_duration
next_after-le clock (cron_job expression schedule) t s exact e =
    omega (arith, exact.fires_later schedule.schedule t s e)
next_after-le clock (interval_job every) t s exact e = elim (Option-cases (clock.from_std every)) [
  | inl h ↦ cc (rw h at e)
  | inr (c, h) ↦ omega (arith, exact.adds t c s (rw h at e))
]
next_after-le clock (timeout_job delay) t s exact e = cc

-- A job that has fired fires later, or not again.
pub next_after-later :
    {Cron : Type 0} (clock : Clock Cron) (schedule : ScheduledJobSchedule Cron) (t s : ℕ)
    → IsClock clock
    → IsAdvancing schedule
    → next_after clock schedule t ≡ some s
    → t < s
unfolding next_after add_duration
next_after-later clock (cron_job expression schedule) t s exact advancing e =
    exact.fires_later schedule.schedule t s e
next_after-later clock (interval_job every) t s exact advancing e =
    elim (Option-cases (clock.from_std every)) [
      | inl h ↦ cc (rw h at e)
      | inr (c, h) ↦
          omega (arith, exact.converts every c h, exact.adds t c s (rw h at e), advancing)
    ]
next_after-later clock (timeout_job delay) t s exact advancing e = cc
