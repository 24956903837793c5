-- ===== src/Prelude/Texts/Split.antt =====
-- Texts as lists of code points: equality, `split`, `join`, prefixes.
use Prim.Native.Nat.{ℕ, ◌-◌}
use Prim.Native.Char.{code}
use Prim.Native.String.{String}
use mathlib.Core.Path.{◌≡◌, refl}
use mathlib.Core.Logic.{◌↔◌, ◌≢◌}
use mathlib.Core.Bool.{Bool, true, false, ◌&&◌, not}
use mathlib.Core.List.{List, [], ◌∷◌, ◌++◌, map}
use mathlib.Core.Option.{Option, none, some}
use native.Mathlib.Omega.{arith}
use nivasa.Prelude.Tests.{◌==◌, leb, if◌then◌else◌}
use nivasa.Prelude.Lists.{is_empty, keep, All}

abbrev pub Text : Type 0
Text = List ℕ

-- The code points of a literal.
abbrev pub codes : String → Text
codes String.[] = []
codes (String.◌∷◌ c s) = code c ∷ codes s

abbrev pub text_eq : Text → Text → Bool
text_eq [] [] = true
text_eq (a ∷ s) (b ∷ t) = a == b && text_eq s t
text_eq _ _ = false

pub text_eq_iff : (s t : Text) → (text_eq s t ≡ true) ↔ (s ≡ t)
text_eq_iff [] [] = ground arith
text_eq_iff [] (b ∷ t) = ground arith
text_eq_iff (a ∷ s) [] = ground arith
text_eq_iff (a ∷ s) (b ∷ t) = ground (arith, text_eq_iff s t)

pub text_eq_refl : (s : Text) → text_eq s s ≡ true
text_eq_refl s = (text_eq_iff s s).1 refl

-- `strip_prefix` with a character.
abbrev pub strip_prefix : ℕ → Text → Option Text
strip_prefix c [] = none
strip_prefix c (x ∷ s) = if x == c then some s else none

abbrev pub ends_with : ℕ → Text → Bool
ends_with c [] = false
ends_with c (x ∷ []) = x == c
ends_with c (x ∷ y ∷ s) = ends_with c (y ∷ s)

abbrev pub starts_with : ℕ → Text → Bool
starts_with c [] = false
starts_with c (x ∷ s) = x == c

-- `to_ascii_uppercase`.
abbrev pub upper_char : ℕ → ℕ
upper_char c = if leb b'a' c && leb c b'z' then c - 32 else c

abbrev pub to_ascii_uppercase : Text → Text
to_ascii_uppercase s = map upper_char s

abbrev pub push_head : ℕ → List Text → List Text
push_head c [] = (c ∷ []) ∷ []
push_head c (w ∷ ws) = (c ∷ w) ∷ ws

-- `split` with a character: n separators give n + 1 parts.
abbrev pub split : ℕ → Text → List Text
split c [] = [] ∷ []
split c (x ∷ s) = let parts = split c s in if x == c then [] ∷ parts else push_head x parts

abbrev pub join : ℕ → List Text → Text
join c [] = []
join c (w ∷ []) = w
join c (w ∷ v ∷ ws) = w ++ (c ∷ join c (v ∷ ws))

-- `join` with a text between the parts.
abbrev pub join_with : Text → List Text → Text
join_with separator [] = []
join_with separator (w ∷ []) = w
join_with separator (w ∷ v ∷ ws) = w ++ (separator ++ join_with separator (v ∷ ws))

-- No character of the text is `c`.
abbrev pub Lacks : ℕ → Text → Type 0
Lacks c s = All (λ x. x ≢ c) s

pub split_whole : (c : ℕ) (w : Text) → Lacks c w → split c w ≡ w ∷ []
split_whole c [] h = refl
split_whole c (x ∷ w) (n, h) = ground (arith, split_whole c w h)

pub split-append : (c : ℕ) (w r : Text) → Lacks c w → split c (w ++ (c ∷ r)) ≡ w ∷ split c r
split-append c [] r h = ground arith
split-append c (x ∷ w) r (n, h) = ground (arith, split-append c w r h)

pub push_head-All :
    (c x : ℕ) (ws : List Text) → x ≢ c → All (Lacks c) ws → All (Lacks c) (push_head x ws)
push_head-All c x [] n h = ((n, tt), tt)
push_head-All c x (w ∷ ws) n (k, h) = ((n, k), h)

pub split-Lacks : (c : ℕ) (s : Text) → All (Lacks c) (split c s)
split-Lacks c [] = (tt, tt)
split-Lacks c (x ∷ s) = ground (arith, split-Lacks c s, push_head-All c x (split c s))

-- The parts of `keep` satisfy the test and what all parts satisfied.
pub keep-nonempty :
    (c : ℕ) (ws : List Text)
    → All (Lacks c) ws
    → All (λ w. (w ≢ []) × Lacks c w) (keep (λ w. not (is_empty w)) ws)
keep-nonempty c [] h = tt
keep-nonempty c ([] ∷ ws) (k, h) = keep-nonempty c ws h
keep-nonempty c ((x ∷ w) ∷ ws) (k, h) = ((λ e. cc, k), keep-nonempty c ws h)
