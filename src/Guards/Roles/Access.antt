-- ===== src/Guards/Roles/Access.antt =====
-- Who passes `RolesGuard`.
use nivasa.Prelude.{
  Bool-cases, any, Text, text_eq, text_eq_iff, ◌≡◌, refl, sym, subst, ◌↔◌, inl, inr, Bool, true,
  ◌||◌, Option, none, some, List, [], ◌∷◌, arith,
}
use mathlib.Core.List.{Mem, mem-cons, mem-cons_self, mem-cons_of_mem, not-mem-nil}
use mathlib.Core.Logic.{∥∥₁_elim, ∥∥₁_map}
use mathlib.Core.Logic.Or
use nivasa.Common.Request.{Json}
use nivasa.Guards.Context.{ExecutionContext}
use nivasa.Guards.Roles.Sources.{Asks, Holds, required_roles-Asks, principal_roles-Holds}
use nivasa.Guards.Roles.{
  roles_match, required_roles, principal_roles, or_no_roles, roles_can_activate,
}

-- Some text stands in both lists.
abbrev pub Share : List Text → List Text → Type 0
Share required principal = ∥ ((role : Text) × Mem role required × Mem role principal) ∥₁

any_text_iff :
    (role : Text) (principal : List Text)
    → (any (λ candidate. text_eq candidate role) principal ≡ true) ↔ Mem role principal
any_text_iff role [] = (λ e. cc, λ m. absurd (not-mem-nil m))
any_text_iff role (p ∷ principal) =
    let ih = any_text_iff role principal in
    (
      λ e. elim (Bool-cases (text_eq p role)) [
        | inl same ↦ subst (λ r. Mem r (p ∷ principal)) ((text_eq_iff p role).0 same) mem-cons_self
        | inr other ↦ mem-cons_of_mem p (ih.0 (ground arith))
      ],
      λ m.
          Or.elim (hlevel) (mem-cons.0 m) (λ e. rw ((text_eq_iff p role).1 (sym e)) refl)
            (λ n. later (ih.1 n)),
    )
  where
    later :
        any (λ candidate. text_eq candidate role) principal ≡ true
        → (text_eq p role || any (λ candidate. text_eq candidate role) principal) ≡ true
    later e = ground arith

roles_match_sound :
    (required principal : List Text)
    → roles_match required principal ≡ true
    → Share required principal
unfolding roles_match
roles_match_sound [] principal e = cc
roles_match_sound (role ∷ required) principal e =
    elim (Bool-cases (any (λ candidate. text_eq candidate role) principal)) [
      | inl h ↦ ∣ (role, mem-cons_self, (any_text_iff role principal).0 h) ∣₁
      | inr h ↦
          ∥∥₁_map (roles_match_sound required principal (ground arith))
            λ (shared, m, n). (shared, mem-cons_of_mem role m, n)
    ]

roles_match_complete :
    (required principal : List Text) (role : Text)
    → Mem role required
    → Mem role principal
    → roles_match required principal ≡ true
unfolding roles_match
roles_match_complete [] principal role m n = absurd (not-mem-nil m)
roles_match_complete (r ∷ required) principal role m n =
    Or.elim (hlevel) (mem-cons.0 m)
      (λ e. rw ((any_text_iff r principal).1 (subst (λ t. Mem t principal) e n)) refl)
      (λ k. later (roles_match_complete required principal role k n))
  where
    later :
        roles_match required principal ≡ true
        → (any (λ candidate. text_eq candidate r) principal || roles_match required principal)
          ≡ true
    later e = ground arith

roles_match_iff :
    (required principal : List Text)
    → (roles_match required principal ≡ true) ↔ Share required principal
roles_match_iff required principal = (
  roles_match_sound required principal,
  λ shared.
      ∥∥₁_elim shared (hlevel) λ (role, m, n). roles_match_complete required principal role m n,
)

-- A principal passes when nothing is asked for, or with a role that is; one without a list of roles
-- has none.
abbrev pub Passes : Option (List Text) → Option (List Text) → Type 0
Passes none held = Unit
Passes (some required) none = Share required []
Passes (some required) (some held) = Share required held

-- The guard finds the roles that are required in the request's metadata, for the handler before the
-- class, and only then in the context's maps, and the roles of the principal in the request's custom
-- data before the context's. A principal passes exactly when they share a role, or when no roles are
-- required. Values that are not an array of texts count as none, without a look at what comes
-- after them in the request.
pub roles_can_activate_lem :
    {Data Value Other : Type 0} (json : Json Value) (context : ExecutionContext Data Value Other)
    → (required : Option (List Text)) × (held : Option (List Text)) × Asks json context required
      × Holds json context held
      × ((roles_can_activate json context ≡ true) ↔ Passes required held)
unfolding roles_can_activate
roles_can_activate_lem json context = (
  required_roles json context,
  principal_roles json context,
  required_roles-Asks json context,
  principal_roles-Holds json context,
  verdict (required_roles json context) (principal_roles json context),
)
  where
    verdict :
        (required held : Option (List Text))
        → ((elim required as (λ _. Bool) [
          | none ↦ true
          | some roles ↦ roles_match roles (or_no_roles held)
        ])
            ≡ true)
          ↔ Passes required held
    verdict none held = (λ e. tt, λ h. refl)
    verdict (some required) none = roles_match_iff required []
    verdict (some required) (some held) = roles_match_iff required held
