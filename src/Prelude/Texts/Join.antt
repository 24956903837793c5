-- ===== src/Prelude/Texts/Join.antt =====
-- Splitting and joining again, and prefixes that are texts.
use Prim.Native.Nat.{ℕ}
use mathlib.Core.Path.{◌≡◌, refl, sym, ap, ◌∙◌}
use mathlib.Core.Logic.{inl, inr}
use mathlib.Core.Bool.{Bool, true, false}
use mathlib.Core.List.{List, [], ◌∷◌, ◌++◌}
use mathlib.Core.Option.{Option, none, some}
use nivasa.Prelude.Tests.{if◌then◌else◌, ◌==◌, ==_iff, ==_refl, Bool-cases}
use nivasa.Prelude.Texts.Split.{Text, split, join, push_head}

split-cons : (c : ℕ) (s : Text) → (w : Text) × (ws : List Text) × (split c s ≡ w ∷ ws)
split-cons c [] = ([], [], refl)
split-cons c (x ∷ s) = go (x == c) (split c s) (split-cons c s)
  where
    go :
        (b : Bool) (parts : List Text)
        → ((w : Text) × (ws : List Text) × (parts ≡ w ∷ ws))
        → (w : Text) × (ws : List Text) × ((if b then [] ∷ parts else push_head x parts) ≡ w ∷ ws)
    go true parts p = ([], parts, refl)
    go false parts (w, ws, e) = (x ∷ w, ws, ap (push_head x) e)

join-push_head :
    (c x : ℕ) (w : Text) (ws : List Text) → join c (push_head x (w ∷ ws)) ≡ x ∷ join c (w ∷ ws)
join-push_head c x w [] = refl
join-push_head c x w (v ∷ ws) = refl

pub join-split : (c : ℕ) (s : Text) → join c (split c s) ≡ s
join-split c [] = refl
join-split c (x ∷ s) =
    let (w, ws, e) = split-cons c s in
    elim (Bool-cases (x == c)) [
      | inl h ↦ rw h (
          rw e (
            ap (λ y. y ∷ join c (w ∷ ws)) (sym ((==_iff x c).0 h))
            ∙ ap (λ t. x ∷ t) (ap (join c) (sym e) ∙ join-split c s)))
      | inr h ↦
          rw h (
            rw e (join-push_head c x w ws ∙ ap (λ t. x ∷ t) (ap (join c) (sym e) ∙ join-split c s)))
    ]

-- `strip_prefix` with a text.
abbrev pub strip_text : Text → Text → Option Text
strip_text [] s = some s
strip_text (p ∷ prefix) [] = none
strip_text (p ∷ prefix) (x ∷ s) = if x == p then strip_text prefix s else none

pub strip_text-append : (prefix s : Text) → strip_text prefix (prefix ++ s) ≡ some s
strip_text-append [] s = refl
strip_text-append (p ∷ prefix) s = rw (==_refl p) (strip_text-append prefix s)

pub strip_text-eq-some :
    (prefix s : Text) {r : Text} → strip_text prefix s ≡ some r → s ≡ prefix ++ r
strip_text-eq-some [] s e = cc
strip_text-eq-some (p ∷ prefix) [] e = cc
strip_text-eq-some (p ∷ prefix) (x ∷ s) {r} e = elim (Bool-cases (x == p)) [
  | inr h ↦ cc (rw h at e)
  | inl h ↦
      ap (λ y. y ∷ s) ((==_iff x p).0 h)
      ∙ ap (λ t. p ∷ t) (strip_text-eq-some prefix s {r = r} (rw h at e))
]
