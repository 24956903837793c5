-- ===== src/Prelude/Texts/Members.antt =====
-- Lists of texts searched with a Boolean test: `contains` of a set of strings.
use mathlib.Core.Path.{◌≡◌, refl}
use mathlib.Core.Bool.{Bool, false, ◌||◌}
use mathlib.Core.List.{List, [], ◌∷◌, ◌++◌}
use native.Mathlib.Omega.{arith}
use nivasa.Prelude.Texts.Split.{Text, text_eq}

abbrev pub mem_text : Text → List Text → Bool
mem_text t [] = false
mem_text t (u ∷ ts) = text_eq u t || mem_text t ts

pub mem_text-append :
    (t : Text) (ts us : List Text) → mem_text t (ts ++ us) ≡ (mem_text t ts || mem_text t us)
mem_text-append t [] us = refl
mem_text-append t (u ∷ ts) us = ground (arith, mem_text-append t ts us)
