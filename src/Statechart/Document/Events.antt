-- ===== src/Statechart/Document/Events.antt =====
-- `Event` of nivasa-statechart/src/types.rs and its descriptors.
use nivasa.Prelude.{
  ltb, ◌==◌, if◌then◌else◌, Bool-cases, length, Text, codes, text_eq, text_eq_iff, split,
  trim_end_matches, ◌≡◌, refl, sym, ◌≢◌, ◌↔◌, ◌⊎◌, inl, inr, Bool, true, false, ◌&&◌, Option, none,
  some, List, [], ◌∷◌, ◌++◌, arith,
}

pub data EventType : Type 0 where
  internal external platform : EventType

-- The data of an event are a value of serde_json.
pub record Event (Value : Type 0) : Type 0 where
  pub name : Text
  pub event_type : EventType
  pub data_value : Option Value
  pub origin : Option Text
  pub invoke_id : Option Text

-- `trim_end_matches(".*")`.
abbrev pub trim_end_wildcards : Text → Text
trim_end_wildcards [] = []
trim_end_wildcards (c ∷ s) =
    let rest = trim_end_wildcards s in
    if c == b'.' && text_eq rest (codes "*") then [] else c ∷ rest

-- `zip` and `all` with equality.
unfoldable pub all_zip_eq : List Text → List Text → Bool
all_zip_eq (d ∷ ds) (n ∷ ns) = text_eq d n && all_zip_eq ds ns
all_zip_eq _ _ = true

module _ {Value : Type 0} where
  unfoldable pub event_internal : Text → Event Value
  event_internal name = record {
    name = name;
    event_type = internal;
    data_value = none;
    origin = none;
    invoke_id = none;
  }

  unfoldable pub event_external : Text → Event Value
  event_external name = record {
    name = name;
    event_type = external;
    data_value = none;
    origin = none;
    invoke_id = none;
  }

  unfoldable pub with_data : Event Value → Value → Event Value
  with_data self data_value = record self { data_value = some data_value }

  unfoldable pub matches_descriptor : Event Value → Text → Bool
  matches_descriptor self descriptor =
      let desc_tokens = split b'.' (trim_end_matches b'.' (trim_end_wildcards descriptor)) in
      let name_tokens = split b'.' self.name in
      if text_eq descriptor (codes "*")
      then true
      else if ltb (length name_tokens) (length desc_tokens)
      then false
      else all_zip_eq desc_tokens name_tokens

-- The one list starts with the other.
abbrev pub IsPrefix : List Text → List Text → Type 0
IsPrefix ds ns = (rest : List Text) × (ns ≡ ds ++ rest)

all_zip_eq_iff :
    (ds ns : List Text)
    → ((if ltb (length ns) (length ds) then false else all_zip_eq ds ns) ≡ true) ↔ IsPrefix ds ns
unfolding all_zip_eq
all_zip_eq_iff [] ns = (λ e. (ns, refl), λ p. ground arith)
all_zip_eq_iff (d ∷ ds) [] = (λ e. ground arith, λ (rest, e). cc)
all_zip_eq_iff (d ∷ ds) (n ∷ ns) =
    let ih = all_zip_eq_iff ds ns in
    (
      λ e.
          let (rest, found) = ih.0 (ground arith) in
          let same : d ≡ n = (text_eq_iff d n).0 (ground arith) in (rest, cc),
      λ (rest, e).
          let same : n ≡ d = cc in
          let matched = ih.1 (rest, cc) in
          let equal = (text_eq_iff d n).1 (sym same) in ground arith,
    )

-- An event matches a descriptor exactly when that is "*", or its tokens, without the wildcards and
-- dots at its end, are the first tokens of the event's name.
pub matches_descriptor_iff :
    {Value : Type 0} (self : Event Value) (descriptor : Text)
    → (matches_descriptor self descriptor ≡ true) ↔ (
        (descriptor ≡ codes "*")
        ⊎ IsPrefix
            (split b'.' (trim_end_matches b'.' (trim_end_wildcards descriptor)))
            (split b'.' self.name))
unfolding matches_descriptor
matches_descriptor_iff self descriptor =
    let desc_tokens = split b'.' (trim_end_matches b'.' (trim_end_wildcards descriptor)) in
    let tokens = all_zip_eq_iff desc_tokens (split b'.' self.name) in
    elim (Bool-cases (text_eq descriptor (codes "*"))) [
      | inl star ↦
          let same = (text_eq_iff descriptor (codes "*")).0 star in
          (λ e. inl same, λ h. rw star refl)
      | inr other ↦ rw other (
        λ e. inr (tokens.0 e),
        λ h. elim h [
          | inl same ↦ absurd (false_true other ((text_eq_iff descriptor (codes "*")).1 same))
          | inr p ↦ tokens.1 p
        ],
      )
    ]
  where
    false_true : text_eq descriptor (codes "*") ≡ false → text_eq descriptor (codes "*") ≢ true
    false_true differs same = cc
