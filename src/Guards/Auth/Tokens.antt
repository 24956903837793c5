-- ===== src/Guards/Auth/Tokens.antt =====
-- The tokens that `AuthGuard` accepts.
use nivasa.Prelude.{
  Option-cases, all, All, Text, codes, split, join, Lacks, split_whole, split-append, split-Lacks,
  trim, join-split, strip_text, strip_text-append, strip_text-eq-some, ◌≡◌, refl, sym, ap, ◌∙◌,
  subst, ◌↔◌, inl, inr, true, false, ◌&&◌, not, List, [], ◌∷◌, ◌++◌, arith,
}
use nivasa.Guards.Auth.{has_three_segments, is_blank, is_jwt, looks_like_jwt_bearer}

-- Three parts that are not blank and have no dot, behind "Bearer " and with dots between them.
abbrev pub IsBearer : Text → Type 0
IsBearer token =
    (header : Text) × (payload : Text) × (signature : Text) × (token
      ≡ codes "Bearer " ++ (header ++ (b'.' ∷ (payload ++ (b'.' ∷ signature)))))
    × (Lacks b'.' header × (is_blank header ≡ false))
    × (Lacks b'.' payload × (is_blank payload ≡ false))
    × (Lacks b'.' signature × (is_blank signature ≡ false))

three_parts :
    (r : Text) (parts : List Text)
    → split b'.' r ≡ parts
    → All (Lacks b'.') parts
    → (has_three_segments parts && all (λ segment. not (is_blank segment)) parts) ≡ true
    → IsBearer (codes "Bearer " ++ r)
three_parts r [] e h k = cc
three_parts r (a ∷ []) e h k = cc
three_parts r (a ∷ b ∷ []) e h k = cc
three_parts r (a ∷ b ∷ c ∷ d ∷ ws) e h k = cc
three_parts r (a ∷ b ∷ c ∷ []) e (la, (lb, (lc, u))) k = (
  a,
  b,
  c,
  ap (λ t. codes "Bearer " ++ t) (sym (join-split b'.' r) ∙ ap (join b'.') e),
  (la, ground arith),
  (lb, ground arith),
  (lc, ground arith),
)

-- The guard's test accepts a header exactly when, without the white space around it, it is
-- "Bearer " and three parts between dots, none of them blank.
pub looks_like_jwt_bearer_iff :
    (token : Text) → (looks_like_jwt_bearer token ≡ true) ↔ IsBearer (trim token)
unfolding looks_like_jwt_bearer
looks_like_jwt_bearer_iff token = (
  λ e. elim (Option-cases (strip_text (codes "Bearer ") (trim token))) [
    | inl h ↦ cc (rw h at e)
    | inr (r, h) ↦
        subst IsBearer (sym (strip_text-eq-some (codes "Bearer ") (trim token) {r = r} h))
          (three_parts r (split b'.' r) refl (split-Lacks b'.' r) (rw h at e))
  ],
  λ (a, b, c, e, (la, na), (lb, nb), (lc, nc)).
      let rest = a ++ (b'.' ∷ (b ++ (b'.' ∷ c))) in
      let parts : split b'.' rest ≡ a ∷ b ∷ c ∷ [] =
        split-append b'.' a (b ++ (b'.' ∷ c)) la
        ∙ ap (λ ws. a ∷ ws)
            (split-append b'.' b c lb ∙ ap (λ ws. b ∷ ws) (split_whole b'.' c lc)) in
      subst (λ t. is_jwt (strip_text (codes "Bearer ") t) ≡ true) (sym e)
        (subst (λ o. is_jwt o ≡ true) (sym (strip_text-append (codes "Bearer ") rest))
          (subst
            (λ ps. (has_three_segments ps && all (λ segment. not (is_blank segment)) ps) ≡ true)
            (sym parts) (rw (na, nb, nc) refl))),
)
