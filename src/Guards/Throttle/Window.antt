-- ===== src/Guards/Throttle/Window.antt =====
-- The fixed windows of the throttler's storage.
use nivasa.Prelude.{
  leb, ◌==◌, Bool-cases, All, Text, text_eq, get_text, put_text, get_text-put_text,
  get_text-put_text_other, ℕ, zero, suc, ◌+◌, ◌-◌, ◌≤◌, ◌<◌, ◌≡◌, refl, ap, ◌∙◌, ◌⊎◌, inl, inr,
  Bool, true, false, ◌||◌, none, some, List, [], ◌∷◌, arith,
}
use nivasa.Guards.Throttle.{
  ThrottleWindowState, InMemoryThrottlerStorage, u32_max, window_or_new, renewed, count_request,
  allow,
}

-- Calls for one key at the given times.
unfoldable pub allow_all :
    InMemoryThrottlerStorage → Text → ℕ → ℕ → List ℕ → InMemoryThrottlerStorage × List Bool
allow_all self key limit ttl [] = (self, [])
allow_all self key limit ttl (now ∷ times) =
    let (next, allowed) = allow self key limit ttl now in
    let (final, answers) = allow_all next key limit ttl times in (final, allowed ∷ answers)

-- The first `budget` calls pass.
abbrev pub granted : ℕ → List ℕ → List Bool
granted budget [] = []
granted zero (now ∷ times) = false ∷ granted zero times
granted (suc budget) (now ∷ times) = true ∷ granted budget times

-- All times are in the window that starts at `start`.
abbrev pub InWindow : ℕ → ℕ → List ℕ → Type 0
InWindow start ttl times = All (λ now. now < start + ttl) times

allow_open :
    (self : InMemoryThrottlerStorage) (key : Text) (limit ttl now : ℕ)
    (window : ThrottleWindowState)
    → get_text key self ≡ some window
    → 0 < limit
    → 0 < ttl
    → now < window.started_at + ttl
    → allow self key limit ttl now
      ≡ (put_text key (count_request limit window).0 self, (count_request limit window).1)
unfolding allow renewed
allow_open self key limit ttl now window here positive lasting inside =
    rw (here, allow) (rw (no_zero, allow) (rw kept refl))
  where
    no_zero : (limit == 0 || ttl == 0) ≡ false
    no_zero = ground arith

    kept : leb ttl (now - window.started_at) ≡ false
    kept = ground arith

count_full :
    (limit : ℕ) (window : ThrottleWindowState)
    → leb limit window.count ≡ true
    → count_request limit window ≡ (window, false)
unfolding count_request
count_full limit window full = rw full refl

count_room :
    (limit : ℕ) (window : ThrottleWindowState)
    → leb limit window.count ≡ false
    → limit ≤ u32_max
    → count_request limit window ≡ (record window { count = suc window.count }, true)
unfolding count_request
count_room limit window room bound =
    rw room (rw small (ap (λ n. (record window { count = n }, true)) (omega arith)))
  where
    small : leb (window.count + 1) u32_max ≡ true
    small = ground arith

allow_all-granted :
    (self : InMemoryThrottlerStorage) (key : Text) (limit ttl : ℕ) (times : List ℕ)
    (window : ThrottleWindowState)
    → get_text key self ≡ some window
    → 0 < limit
    → limit ≤ u32_max
    → 0 < ttl
    → InWindow window.started_at ttl times
    → (allow_all self key limit ttl times).1 ≡ granted (limit - window.count) times
unfolding allow_all
allow_all-granted self key limit ttl [] window here positive bound lasting inside =
    no_calls (limit - window.count)
  where
    no_calls : (budget : ℕ) → [] ≡ granted budget []
    no_calls zero = refl
    no_calls (suc budget) = refl
allow_all-granted self key limit ttl (now ∷ times) window here positive bound lasting
      (first_inside, inside) =
    elim (Bool-cases (leb limit window.count)) [
      | inl full ↦
          rw (allow_open self key limit ttl now window here positive lasting first_inside) (
            rw (count_full limit window full) (
              rw (exhausted full) (
                ap (λ answers. false ∷ answers)
                  (allow_all-granted (put_text key window self) key limit ttl times window
                      (get_text-put_text key window self) positive bound lasting inside
                    ∙ ap (λ k. granted k times) (exhausted full)))))
      | inr room ↦
          rw (allow_open self key limit ttl now window here positive lasting first_inside) (
            rw (count_room limit window room bound) (
              rw (spent room) (
                ap (λ answers. true ∷ answers)
                  (allow_all-granted _ key limit ttl times
                    (record window { count = suc window.count }) (get_text-put_text key _ self)
                    positive bound lasting inside))))
    ]
  where
    exhausted : leb limit window.count ≡ true → limit - window.count ≡ 0
    exhausted h = ground arith

    spent : leb limit window.count ≡ false → limit - window.count ≡ suc (limit - suc window.count)
    spent h = ground arith

-- No window for the key is open.
abbrev pub IsFresh : InMemoryThrottlerStorage → Text → ℕ → ℕ → Type 0
IsFresh self key ttl now =
    (get_text key self ≡ none)
    ⊎ ((old : ThrottleWindowState) × (get_text key self ≡ some old) × (old.started_at + ttl ≤ now))

renewed_fresh :
    (self : InMemoryThrottlerStorage) (key : Text) (ttl now : ℕ)
    → 0 < ttl
    → IsFresh self key ttl now
    → renewed ttl now (window_or_new now (get_text key self))
      ≡ record { started_at = now; count = 0 }
unfolding renewed
renewed_fresh self key ttl now lasting (inl absent) = rw absent (rw same refl)
  where
    same : leb ttl (now - now) ≡ false
    same = ground arith
renewed_fresh self key ttl now lasting (inr (old, here, over)) = rw here (rw late refl)
  where
    late : leb ttl (now - old.started_at) ≡ true
    late = ground arith

allow_fresh :
    (self : InMemoryThrottlerStorage) (key : Text) (limit ttl now : ℕ)
    → 0 < limit
    → limit ≤ u32_max
    → 0 < ttl
    → IsFresh self key ttl now
    → allow self key limit ttl now
      ≡ (put_text key (record { started_at = now; count = 1 }) self, true)
unfolding allow
allow_fresh self key limit ttl now positive bound lasting fresh =
    rw (no_zero, allow)
      (rw (renewed_fresh self key ttl now lasting fresh)
        (rw (count_room limit (record { started_at = now; count = 0 }) room bound) refl))
  where
    no_zero : (limit == 0 || ttl == 0) ≡ false
    no_zero = ground arith

    room : leb limit 0 ≡ false
    room = ground arith

-- A window opens with a call for a key that has none, or whose last window is over: that call
-- passes. Of it and the calls for the key that follow in the window, in whatever order, the first
-- `limit` pass and all others are refused, so no window passes more than `limit`.
pub allow_all_lem :
    (self : InMemoryThrottlerStorage) (key : Text) (limit ttl now : ℕ) (times : List ℕ)
    → 0 < limit
    → limit ≤ u32_max
    → 0 < ttl
    → IsFresh self key ttl now
    → InWindow now ttl times
    → (allow_all self key limit ttl (now ∷ times)).1 ≡ granted limit (now ∷ times)
unfolding allow_all
allow_all_lem self key zero ttl now times positive bound lasting fresh inside =
    absurd (omega (arith, positive))
allow_all_lem self key (suc limit) ttl now times positive bound lasting fresh inside =
    rw (allow_fresh self key (suc limit) ttl now positive bound lasting fresh) (
      ap (λ answers. true ∷ answers)
        (allow_all-granted _ key (suc limit) ttl times (record { started_at = now; count = 1 })
            (get_text-put_text key _ self) positive bound lasting inside
          ∙ ap (λ budget. granted budget times) (omega arith)))

-- A call for one key leaves what is stored for every other key.
pub allow_other :
    (self : InMemoryThrottlerStorage) (key other : Text) (limit ttl now : ℕ)
    → text_eq key other ≡ false
    → get_text other (allow self key limit ttl now).0 ≡ get_text other self
unfolding allow
allow_other self key other limit ttl now differ = elim (Bool-cases (limit == 0 || ttl == 0)) [
  | inl off ↦ rw (off, allow) refl
  | inr on ↦ rw (on, allow) (get_text-put_text_other key other _ self differ)
]
