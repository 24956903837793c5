-- ===== src/Prelude/Texts/Utf8.antt =====
-- The bytes of a text: `as_bytes`.
use Prim.Native.Nat.{ℕ, ◌+◌, ◌%◌, ◌/◌, ◌<◌}
use mathlib.Core.List.{List, [], ◌∷◌, ◌++◌}
use mathlib.Core.Path.{◌≡◌, refl, ap}
use mathlib.Core.Bool.{true}
use native.Mathlib.Omega.{arith}
use nivasa.Prelude.Lists.{All}
use nivasa.Prelude.Tests.{ltb, if◌then◌else◌}
use nivasa.Prelude.Texts.Split.{Text}

-- The UTF-8 form of a code point.
abbrev pub utf8_char : ℕ → List ℕ
utf8_char c =
    if ltb c 128
    then c ∷ []
    else if ltb c 2048
    then (192 + c / 64) ∷ (128 + c % 64) ∷ []
    else if ltb c 65536
    then (224 + c / 4096) ∷ (128 + (c / 64) % 64) ∷ (128 + c % 64) ∷ []
    else (240 + c / 262144) ∷ (128 + (c / 4096) % 64) ∷ (128 + (c / 64) % 64) ∷ (128 + c % 64) ∷ []

abbrev pub utf8 : Text → List ℕ
utf8 [] = []
utf8 (c ∷ s) = utf8_char c ++ utf8 s

-- ASCII characters are their own bytes.
pub utf8-ascii : (s : Text) → All (λ c. c < 128) s → utf8 s ≡ s
utf8-ascii [] h = refl
utf8-ascii (c ∷ s) (small, h) = rw (below c small) (ap (λ l. c ∷ l) (utf8-ascii s h))
  where
    below : (c : ℕ) → c < 128 → ltb c 128 ≡ true
    below c small = ground arith
