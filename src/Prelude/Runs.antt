-- ===== src/Prelude/Runs.antt =====
-- Recursion on fuel that may also fail: `none` means that the fuel ran out.
use mathlib.Core.Logic.{◌≢◌}
use mathlib.Core.Path.{◌≡◌, refl}
use mathlib.Core.Option.{Option, none, some}
use nivasa.Prelude.Errors.{Result, ok, err}

abbrev pub Run {ℓ κ} : Type ℓ → Type κ → Type (ℓ ⊔ κ)
Run E A = Option (Result E A)

abbrev pub and_run {ℓ κ μ} :
    {E : Type ℓ} {A : Type κ} {B : Type μ} → Run E A → (A → Run E B) → Run E B
and_run none f = none
and_run (some (err e)) f = some (err e)
and_run (some (ok a)) f = f a

abbrev pub done {ℓ κ} : {E : Type ℓ} {A : Type κ} → A → Run E A
done a = some (ok a)

abbrev pub fail {ℓ κ} : {E : Type ℓ} {A : Type κ} → E → Run E A
fail e = some (err e)

pub and_run-eq-done {ℓ κ μ} :
    {E : Type ℓ} {A : Type κ} {B : Type μ} (m : Run E A) (f : A → Run E B) {b : B}
    → and_run m f ≡ done b
    → (a : A) × (m ≡ done a) × (f a ≡ done b)
and_run-eq-done none f h = cc
and_run-eq-done (some (err e)) f h = cc
and_run-eq-done (some (ok a)) f h = (a, refl, h)

-- A run that has an answer has one after the next step.
pub and_run-ne-none {ℓ κ μ} :
    {E : Type ℓ} {A : Type κ} {B : Type μ} (m : Run E A) (f : A → Run E B)
    → m ≢ none
    → ((a : A) → m ≡ done a → f a ≢ none)
    → and_run m f ≢ none
and_run-ne-none none f h k = absurd (h refl)
and_run-ne-none (some (err e)) f h k = λ g. cc
and_run-ne-none (some (ok a)) f h k = k a refl
