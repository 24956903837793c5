-- ===== src/Scheduling/Tick/Rounds.antt =====
-- What a round of a tick does to the map of jobs, and the measure that it makes smaller.
use nivasa.Prelude.{
  ◌==◌, if◌then◌else◌, Bool-cases, some-injective, is_none, All, IsDistinct, lookup, keys,
  remove_map, adjust_map, keys-adjust_map, IsDistinct-remove_map, remove_map-adjust_map, ℕ, suc,
  ◌+◌, ◌-◌, ◌≤◌, ◌<◌, ◌≡◌, refl, sym, ap, ◌∙◌, subst, inl, inr, Option, none, some, [], ◌∷◌, arith,
}
use nivasa.Scheduling.{ScheduledJob, Jobs}
use nivasa.Scheduling.Tick.{reschedule}
use nivasa.Scheduling.Tick.Due.{AllJobs, IsValid}

-- How far the next fire time of a job is from being later than `now`.
abbrev pub until : ℕ → Option ℕ → ℕ
until now none = 0
until now (some t) = suc now - t

module _ {Cron World : Type 0} where
  -- The sum over the jobs: an upper bound on the rounds of a tick.
  abbrev pub outstanding : ℕ → Jobs Cron World → ℕ
  outstanding now [] = 0
  outstanding now ((id, job) ∷ jobs) = until now job.next_fire_at + outstanding now jobs

  outstanding-remove_map :
      (now id : ℕ) (job : ScheduledJob Cron World) (jobs : Jobs Cron World)
      → lookup id jobs ≡ some job
      → outstanding now (remove_map id jobs) + until now job.next_fire_at ≡ outstanding now jobs
  outstanding-remove_map now id job [] e = cc
  outstanding-remove_map now id job ((j, found) ∷ jobs) e = elim (Bool-cases (j == id)) [
    | inl h ↦ rw h (
        ap (λ (x : ScheduledJob Cron World). outstanding now jobs + until now x.next_fire_at)
          (sym (some-injective (rw h at e)))
        ∙ omega arith)
    | inr h ↦ rw h (omega (arith, outstanding-remove_map now id job jobs (rw h at e)))
  ]

  outstanding-adjust_map :
      (now id : ℕ) (job : ScheduledJob Cron World) (next : Option ℕ) (jobs : Jobs Cron World)
      → lookup id jobs ≡ some job
      → outstanding now (adjust_map id (λ x. record x { next_fire_at = next }) jobs)
          + until now job.next_fire_at
        ≡ outstanding now jobs + until now next
  outstanding-adjust_map now id job next [] e = cc
  outstanding-adjust_map now id job next ((j, found) ∷ jobs) e = elim (Bool-cases (j == id)) [
    | inl h ↦ rw h (
        ap
          (λ (x : ScheduledJob Cron World).
            until now next + outstanding now jobs + until now x.next_fire_at)
          (sym (some-injective (rw h at e)))
        ∙ omega arith)
    | inr h ↦ rw h (omega (arith, outstanding-adjust_map now id job next jobs (rw h at e)))
  ]

  -- A property of jobs that does not look at the fire time, or that the new fire time has.
  adjust_map-AllJobs :
      (P : ScheduledJob Cron World → Type 0) (id : ℕ) (next : Option ℕ) (jobs : Jobs Cron World)
      → ((job : ScheduledJob Cron World) → P job → P (record job { next_fire_at = next }))
      → AllJobs P jobs
      → AllJobs P (adjust_map id (λ x. record x { next_fire_at = next }) jobs)
  adjust_map-AllJobs P id next [] f h = tt
  adjust_map-AllJobs P id next ((j, job) ∷ jobs) f (p, h) = elim (Bool-cases (j == id)) [
    | inl e ↦ rw e (f job p, h)
    | inr e ↦ rw e (p, adjust_map-AllJobs P id next jobs f h)
  ]

  adjust_map-keyed :
      (id : ℕ) (next : Option ℕ) (jobs : Jobs Cron World)
      → All (λ (entry : ℕ × ScheduledJob Cron World). entry.1.id ≡ entry.0) jobs
      → All
          (λ (entry : ℕ × ScheduledJob Cron World). entry.1.id ≡ entry.0)
          (adjust_map id (λ x. record x { next_fire_at = next }) jobs)
  adjust_map-keyed id next [] h = tt
  adjust_map-keyed id next ((j, job) ∷ jobs) (p, h) = elim (Bool-cases (j == id)) [
    | inl e ↦ rw e (p, h)
    | inr e ↦ rw e (p, adjust_map-keyed id next jobs h)
  ]

  pub lookup-AllJobs :
      (P : ScheduledJob Cron World → Type 0) (id : ℕ) (job : ScheduledJob Cron World)
      (jobs : Jobs Cron World)
      → lookup id jobs ≡ some job
      → AllJobs P jobs
      → P job
  lookup-AllJobs P id job [] e h = cc
  lookup-AllJobs P id job ((j, found) ∷ jobs) e (p, h) = elim (Bool-cases (j == id)) [
    | inl k ↦ subst P (some-injective (rw k at e)) p
    | inr k ↦ lookup-AllJobs P id job jobs (rw k at e) h
  ]

  remove_map-All :
      (P : ℕ × ScheduledJob Cron World → Type 0) (id : ℕ) (jobs : Jobs Cron World)
      → All P jobs
      → All P (remove_map id jobs)
  remove_map-All P id [] h = tt
  remove_map-All P id ((j, job) ∷ jobs) (p, h) = elim (Bool-cases (j == id)) [
    | inl e ↦ rw e h
    | inr e ↦ rw e (p, remove_map-All P id jobs h)
  ]

  pub reschedule-AllJobs :
      (P : ScheduledJob Cron World → Type 0) (id : ℕ) (next : Option ℕ) (jobs : Jobs Cron World)
      → ((job : ScheduledJob Cron World) → P job → P (record job { next_fire_at = next }))
      → AllJobs P jobs
      → AllJobs P (reschedule id next jobs)
  unfolding reschedule
  reschedule-AllJobs P id none jobs f h =
      remove_map-All (λ entry. P entry.1) id _ (adjust_map-AllJobs P id none jobs f h)
  reschedule-AllJobs P id (some t) jobs f h = adjust_map-AllJobs P id (some t) jobs f h

  pub reschedule-IsValid :
      (id : ℕ) (next : Option ℕ) (jobs : Jobs Cron World)
      → IsValid jobs
      → IsValid (reschedule id next jobs)
  unfolding reschedule
  reschedule-IsValid id next jobs v = go next
    where
      noted : Jobs Cron World
      noted = adjust_map id (λ x. record x { next_fire_at = next }) jobs

      noted-distinct : IsDistinct (keys noted)
      noted-distinct = subst IsDistinct (sym (keys-adjust_map id _ jobs)) v.distinct

      noted-keyed : All (λ (entry : ℕ × ScheduledJob Cron World). entry.1.id ≡ entry.0) noted
      noted-keyed = adjust_map-keyed id next jobs v.keyed

      go : (o : Option ℕ) → IsValid (if is_none o then remove_map id noted else noted)
      go none = record {
        distinct = IsDistinct-remove_map id noted noted-distinct;
        keyed = remove_map-All (λ entry. entry.1.id ≡ entry.0) id noted noted-keyed;
      }
      go (some t) = record { distinct = noted-distinct; keyed = noted-keyed }

  -- A round leaves less to do.
  pub outstanding-reschedule :
      (now id : ℕ) (job : ScheduledJob Cron World) (t : ℕ) (next : Option ℕ)
      (jobs : Jobs Cron World)
      → lookup id jobs ≡ some job
      → job.next_fire_at ≡ some t
      → t ≤ now
      → ((s : ℕ) → next ≡ some s → t < s)
      → outstanding now (reschedule id next jobs) < outstanding now jobs
  unfolding reschedule
  outstanding-reschedule now id job t none jobs here noted due later =
      rw (remove_map-adjust_map id (λ x. record x { next_fire_at = none }) jobs)
        (omega (arith, outstanding-remove_map now id job jobs here, ap (until now) noted, due))
  outstanding-reschedule now id job t (some s) jobs here noted due later = omega (
    arith,
    outstanding-adjust_map now id job (some s) jobs here,
    ap (until now) noted,
    due,
    later s refl,
  )
