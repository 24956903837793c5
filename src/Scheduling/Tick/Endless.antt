-- ===== src/Scheduling/Tick/Endless.antt =====
-- A job with an interval of zero.
use nivasa.Prelude.{
  ◌==◌, if◌then◌else◌, ==_iff, ==_refl, Bool-cases, some-injective, Result, ok, err, Text, lookup,
  insert_map, lookup-insert_map, adjust_map, lookup-remove_map, lookup-adjust_map,
  IsDistinct-insert_map, All-insert_map, ℕ, zero, suc, ◌≤◌, ◌≡◌, refl, sym, ap, ◌∙◌, subst, inl,
  inr, true, false, Option, none, some, List, [], ◌∷◌, ◌++◌, arith,
}
use nivasa.Scheduling.{
  Clock, invalid_interval_duration, interval_job, Handler, ScheduledJob, ScheduledJobSchedule,
  ScheduledJobSnapshot, Jobs, next_after, add_duration, initial_fire_at, from_pattern, new_job,
  register_job, register_pattern_at, register_interval, register_interval_at,
}
use nivasa.Scheduling.Tick.Due.{AllJobs, IsValid, IsNext, NotDue, next_due_cases}
use nivasa.Scheduling.Tick.Rounds.{lookup-AllJobs, reschedule-AllJobs, reschedule-IsValid}
use nivasa.Scheduling.Tick.{fire, settle, reschedule, tick_loop, tick_at}

-- Every call of the handler succeeds.
abbrev pub Succeeds : {World : Type 0} → Handler World → Type 0
Succeeds {World = World} handler = (world : World) → (handler world).1 ≡ ok tt

module _ {Cron World : Type 0} where
  abbrev pub AllSucceed : Jobs Cron World → Type 0
  AllSucceed jobs = AllJobs (λ job. Succeeds job.handler) jobs

  -- What the map holds of a job with an interval of zero that is due at `time`.
  abbrev IsZero : ℕ → ScheduledJob Cron World → Type 0
  IsZero time job = (job.schedule ≡ interval_job 0) × (job.next_fire_at ≡ some time)

module _ {Cron World : Type 0} (clock : Clock Cron) (handler : Handler World) (id : ℕ) (name : Text)
    (now : ℕ) where
  -- The job as `register_interval` makes it.
  abbrev pub zero_job : ScheduledJob Cron World
  zero_job = record {
    id = id;
    name = name;
    schedule = interval_job 0;
    handler = handler;
    next_fire_at = some now;
  }

  -- The map has the job under its identifier, with the same time, and keeps its other properties.
  abbrev Keeps : Jobs Cron World → Type 0
  Keeps jobs =
      IsValid jobs
      × AllSucceed jobs
      × ((job : ScheduledJob Cron World) × (lookup id jobs ≡ some job) × IsZero now job)

  module _ (converts : clock.from_std 0 ≡ some 0)
      (adds : clock.checked_add_signed now 0 ≡ some now) where
    same_again : add_duration clock now 0 ≡ some now
    unfolding add_duration
    same_again = rw converts adds

    -- Firing the job notes the same time again.
    next_after-zero :
        (schedule : ScheduledJobSchedule Cron)
        → interval_job 0 ≡ schedule
        → next_after clock schedule now ≡ some now
    unfolding next_after
    next_after-zero schedule e = subst (λ s. next_after clock s now ≡ some now) e same_again

    reschedule-Zero :
        (other : ℕ) (next : Option ℕ) (jobs : Jobs Cron World) (job : ScheduledJob Cron World)
        → lookup id jobs ≡ some job
        → IsZero now job
        → ((other == id) ≡ true → next ≡ some now)
        → (found : ScheduledJob Cron World) × (lookup id (reschedule other next jobs) ≡ some found)
          × IsZero now found
    unfolding reschedule
    reschedule-Zero other next jobs job here (zero_interval, due) again =
        elim (Bool-cases (other == id)) [
          | inl e ↦
              subst
                (λ n.
                  (found : ScheduledJob Cron World) × (lookup id (reschedule other n jobs)
                    ≡ some found)
                  × IsZero now found)
                (sym (again e))
                (
                  record job { next_fire_at = some now },
                  noted (some now)
                      ∙ ap (λ b. some (if b then record job { next_fire_at = some now } else job))
                          e,
                  (zero_interval, refl),
                )
          | inr e ↦ (job, left next e, (zero_interval, due))
        ]
      where
        noted :
            (n : Option ℕ)
            → lookup id (adjust_map other (λ j. record j { next_fire_at = n }) jobs)
              ≡ some (if other == id then record job { next_fire_at = n } else job)
        noted n = lookup-adjust_map other id (λ j. record j { next_fire_at = n }) jobs job here

        left :
            (n : Option ℕ) → (other == id) ≡ false → lookup id (reschedule other n jobs) ≡ some job
        left none e =
            lookup-remove_map other id _ e
            ∙ noted none
            ∙ ap (λ b. some (if b then record job { next_fire_at = none } else job)) e
        left (some t) e =
            noted (some t)
            ∙ ap (λ b. some (if b then record job { next_fire_at = some t } else job)) e

    module _ (later : ℕ) (due : now ≤ later) where
      fire-Keeps :
          (jobs : Jobs Cron World) (s : ScheduledJobSnapshot Cron World)
          → Keeps jobs
          → IsNext later jobs s
          → Keeps (fire clock later s jobs)
      fire-Keeps jobs s (v, succeed, (job, here, (zero_interval, at_now))) next = (
        reschedule-IsValid s.id _ jobs v,
        reschedule-AllJobs (λ j. Succeeds j.handler) s.id _ jobs (λ j h. h) succeed,
        reschedule-Zero s.id _ jobs job here (zero_interval, at_now) again,
      )
        where
          again : (s.id == id) ≡ true → next_after clock s.schedule s.due_at ≡ some now
          again e =
              let same_id : s.id ≡ id = (==_iff s.id id).0 e in
              let same : next.job ≡ job =
                some-injective (sym next.stored ∙ ap (λ i. lookup i jobs) same_id ∙ here) in
              let schedule : interval_job 0 ≡ s.schedule =
                sym zero_interval ∙ sym (ap (λ j. j.schedule) same) ∙ next.same_schedule in
              let time : now ≡ s.due_at =
                some-injective (sym at_now ∙ sym (ap (λ j. j.next_fire_at) same) ∙ next.noted) in
              subst (λ t. next_after clock s.schedule t ≡ some now) time
                (next_after-zero s.schedule schedule)

      tick_loop-Keeps :
          (fuel : ℕ) (jobs : Jobs Cron World) (world : World) (fired : List ℕ)
          → Keeps jobs
          → tick_loop clock later fuel jobs world fired ≡ none
      unfolding tick_loop
      tick_loop-Keeps zero jobs world fired keeps = refl
      tick_loop-Keeps (suc fuel) jobs world fired keeps = elim (next_due_cases later jobs keeps.0) [
        | inl (bare, late) ↦
            let (job, here, (zero_interval, at_now)) = keeps.2 in
            absurd
              (omega (arith, lookup-AllJobs (NotDue later) id job jobs here late now at_now, due))
        | inr (s, e, next) ↦
            rw (e, tick_loop)
              (ran s (s.handler world) (succeeds s next) (λ w ids.
                tick_loop-Keeps fuel (fire clock later s jobs) w ids
                  (fire-Keeps jobs s keeps next)))
      ]
        where
          succeeds :
              (s : ScheduledJobSnapshot Cron World)
              → IsNext later jobs s
              → (s.handler world).1 ≡ ok tt
          succeeds s next =
              subst Succeeds next.same_handler
                (lookup-AllJobs (λ j. Succeeds j.handler) s.id next.job jobs next.stored keeps.1)
                world

          ran :
              (s : ScheduledJobSnapshot Cron World) (r : World × Result Text (Unit {0}))
              → r.1 ≡ ok tt
              → ((w : World) (ids : List ℕ)
                  → tick_loop clock later fuel (fire clock later s jobs) w ids ≡ none)
              → settle clock later
                  (tick_loop clock later fuel (fire clock later s jobs))
                  s
                  (fire clock later s jobs)
                  fired
                  r
                ≡ none
          ran s (w, ok done_value) h endless = endless w (fired ++ (s.id ∷ []))
          ran s (w, err message) h endless = cc

    new_job-zero_job : new_job clock id name (interval_job 0) handler now ≡ ok zero_job
    unfolding new_job initial_fire_at
    new_job-zero_job = rw (same_again, new_job) refl

    -- `register_interval_at` refuses an interval of zero. `register_interval` accepts it, whatever
    -- jobs there are; and once the job is due, if its handler and those of all other jobs always
    -- succeed, no tick ends, however long it runs. The clock adds zero to the time of registration
    -- without a change.
    pub register_interval-endless :
        (jobs : Jobs Cron World) (later fuel : ℕ) (world : World)
        → IsValid jobs
        → AllSucceed jobs
        → Succeeds handler
        → now ≤ later
        → (register_interval_at clock id name 0 now handler jobs
            ≡ err (invalid_interval_duration 0))
          × (register_interval clock id name 0 now handler jobs
              ≡ ok (insert_map id zero_job jobs, id))
          × (tick_at clock later fuel (insert_map id zero_job jobs) world ≡ none)
    unfolding register_interval_at register_interval register_pattern_at from_pattern register_job
        tick_at
    register_interval-endless jobs later fuel world v succeed succeeds due = (
      refl,
      rw (new_job-zero_job, register_job) refl,
      tick_loop-Keeps later due fuel (insert_map id zero_job jobs) world [] (
        record {
          distinct = IsDistinct-insert_map id zero_job jobs v.distinct;
          keyed = All-insert_map _ id zero_job jobs refl v.keyed;
        },
        All-insert_map _ id zero_job jobs succeeds succeed,
        (zero_job, lookup-insert_map id id zero_job jobs ∙ rw (==_refl id) refl, (refl, refl)),
      ),
    )
