-- ===== src/Scheduling/Tick/Total.antt =====
-- A tick ends, and leaves no job that is due.
use nivasa.Prelude.{
  some-injective, ok, err, Text, ℕ, ◌≤◌, ◌≡◌, sym, ◌∙◌, subst, ◌⊎◌, inl, inr, some, List,
}
use nivasa.Scheduling.{Clock, job_failed, ScheduledJobSnapshot, Jobs}
use nivasa.Scheduling.Tick.{next_due, fire, Ticked}
use nivasa.Scheduling.Tick.Due.{
  IsClock, IsAdvancing, AllJobs, IsValid, NotBefore, NotDue, IsNext, next_due_cases, next_after-le,
}
use nivasa.Scheduling.Tick.Rounds.{lookup-AllJobs, reschedule-AllJobs, reschedule-IsValid}

module _ {Cron World : Type 0} (clock : Clock Cron) (exact : IsClock clock) (now : ℕ) where
  -- Every interval job has an interval.
  abbrev pub AllAdvance : Jobs Cron World → Type 0
  AllAdvance jobs = AllJobs (λ job. IsAdvancing job.schedule) jobs

  fire-NotBefore :
      (jobs : Jobs Cron World) (s : ScheduledJobSnapshot Cron World)
      → IsNext now jobs s
      → AllJobs (NotBefore s.due_at) (fire clock now s jobs)
  fire-NotBefore jobs s next =
      reschedule-AllJobs (NotBefore s.due_at) s.id _ jobs
        (λ job h t e. next_after-le clock s.schedule s.due_at t exact e) next.least

  -- With a clock that adds exactly and cron schedules that fire later, jobs fire in the order of
  -- their times, those with an interval of zero included: in a valid map of jobs, what a round picks
  -- is not due before what the round before it fired.
  pub fire_order :
      (jobs : Jobs Cron World) (s next : ScheduledJobSnapshot Cron World)
      → IsValid jobs
      → next_due now jobs ≡ some s
      → next_due now (fire clock now s jobs) ≡ some next
      → s.due_at ≤ next.due_at
  fire_order jobs s next v picked picked_next = elim (next_due_cases now jobs v) [
    | inl (bare, late) ↦ cc
    | inr (found, e, first_due) ↦
        let is_next = subst (IsNext now jobs) (some-injective (sym e ∙ picked)) first_due in
        elim (next_due_cases now (fire clock now s jobs) (reschedule-IsValid s.id _ jobs v)) [
          | inl (bare, late) ↦ cc
          | inr (other, f, second_due) ↦
              let is_second =
                subst (IsNext now (fire clock now s jobs)) (some-injective (sym f ∙ picked_next))
                  second_due in
              lookup-AllJobs (NotBefore s.due_at) next.id is_second.job (fire clock now s jobs)
                is_second.stored (fire-NotBefore jobs s is_next) next.due_at is_second.noted
        ]
  ]

  -- How a tick ends: with the handlers' success and nothing that is due, or with one's failure.
  abbrev pub Ends : Ticked Cron World → Type 0
  Ends result =
      ((fired : List ℕ) × (result.answer ≡ ok fired) × AllJobs (NotDue now) result.jobs)
      ⊎ ((job_name : Text) × (message : Text) × (result.answer ≡ err (job_failed job_name message)))
