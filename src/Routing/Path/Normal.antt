-- ===== src/Routing/Path/Normal.antt =====
-- What `normalize_path` keeps and what it changes.
use nivasa.Prelude.{
  ltb, ◌==◌, if◌then◌else◌, ==_iff, Bool-cases, length, is_empty, first, keep, Text, starts_with,
  split, is_whitespace, drop_end, trim_end_matches, trim, ends_without, begins_without,
  last-drop_end, trim_id, ℕ, ◌≡◌, refl, sym, ap, ◌∙◌, ◌⊎◌, inl, inr, Bool, true, false, not, List,
  [], ◌∷◌, arith,
}
use nivasa.Routing.Path.{slash, normalize_path, split_path_segments, first_path_segment}
use nivasa.Routing.Path.Segments.{first_path_segment-split_path_segments}

abbrev nonempty : Text → Bool
nonempty w = not (is_empty w)

abbrev is_slash : ℕ → Bool
is_slash c = c == slash

-- The first part of a split stays when slashes at the end go, and so do the other parts that are
-- not empty.
record SameParts (s t : Text) : Type 0 where
  head : Text
  others : List Text
  left : List Text
  before : split slash s ≡ head ∷ others
  after : split slash t ≡ head ∷ left
  same : keep nonempty others ≡ keep nonempty left

drop_end-SameParts : (s : Text) → SameParts s (drop_end is_slash s)
drop_end-SameParts [] = record {
  head = [];
  others = [];
  left = [];
  before = refl;
  after = refl;
  same = refl;
}
drop_end-SameParts (c ∷ s) =
    let ih = drop_end-SameParts s in
    elim (Bool-cases (is_slash c)) [
      | inr other ↦ record {
        head = c ∷ ih.head;
        others = ih.others;
        left = ih.left;
        before = rw (other, ih.before) refl;
        after = ground (arith, ih.after);
        same = ih.same;
      }
      | inl found ↦ elim (Bool-cases (is_empty (drop_end is_slash s))) [
        | inl gone ↦ record {
          head = [];
          others = ih.head ∷ ih.others;
          left = [];
          before = rw (found, ih.before) refl;
          after = rw (gone, found) refl;
          same = ground (arith, ih.after, ih.same);
        }
        | inr some_left ↦ record {
          head = [];
          others = ih.head ∷ ih.others;
          left = ih.head ∷ ih.left;
          before = rw (found, ih.before) refl;
          after = ground (arith, ih.after);
          same = ground (arith, ih.same);
        }
      ]
    ]

segments_same : (s t : Text) → SameParts s t → split_path_segments s ≡ split_path_segments t
unfolding split_path_segments
segments_same s t h = rw (h.before, h.after) (go h.head)
  where
    go : (w : Text) → keep nonempty (w ∷ h.others) ≡ keep nonempty (w ∷ h.left)
    go [] = h.same
    go (c ∷ w) = ap (λ l. (c ∷ w) ∷ l) h.same

split_path_segments-slash : (s : Text) → split_path_segments (slash ∷ s) ≡ split_path_segments s
unfolding split_path_segments
split_path_segments-slash s = refl

prefixed_same :
    (b : Bool) (t : Text) → split_path_segments (if b then t else slash ∷ t) ≡ split_path_segments t
prefixed_same true t = refl
prefixed_same false t = split_path_segments-slash t

trimmed_same :
    (b : Bool) (t : Text)
    → split_path_segments (if b then trim_end_matches slash t else t) ≡ split_path_segments t
trimmed_same true t = sym (segments_same t _ (drop_end-SameParts t))
trimmed_same false t = refl

-- Normalizing changes no segment of the trimmed path.
pub split_path_segments-normalize_path :
    (path : Text) → split_path_segments (normalize_path path) ≡ split_path_segments (trim path)
unfolding normalize_path
split_path_segments-normalize_path path = go (trim path)
  where
    go :
        (t : Text)
        → split_path_segments (
            let prefixed = if starts_with slash t then t else slash ∷ t in
            if is_empty t
            then slash ∷ []
            else if ltb 1 (length prefixed)
            then trim_end_matches slash prefixed
            else prefixed)
          ≡ split_path_segments t
    go [] = split_path_segments-slash []
    go (c ∷ t) = trimmed_same _ _ ∙ prefixed_same (starts_with slash (c ∷ t)) (c ∷ t)

-- Cutting slashes at the end of a path that begins with one leaves nothing or a path that does.
Rooted : Text → Type 0
Rooted t = (t ≡ []) ⊎ ((s : Text) × (t ≡ slash ∷ s))

drop_end-Rooted : (s : Text) → Rooted (drop_end is_slash (slash ∷ s))
unfolding Rooted
drop_end-Rooted s = elim (Bool-cases (is_empty (drop_end is_slash s))) [
  | inl gone ↦ inl (rw gone refl)
  | inr some_left ↦ inr (drop_end is_slash s, rw some_left refl)
]

abbrev IsShaped : Text → Type 0
IsShaped t = (t ≡ slash ∷ []) ⊎ ((ends_without is_slash t ≡ true) × Rooted t)

cut-IsShaped : (s : Text) → IsShaped (trim_end_matches slash (slash ∷ s))
cut-IsShaped s = inr (last-drop_end is_slash (slash ∷ s), drop_end-Rooted s)

-- A normalized path is "/" alone, or has no slash at its end and is empty or begins with a slash.
pub normalize_path_shape :
    (path : Text)
    → (normalize_path path ≡ slash ∷ [])
      ⊎ ((ends_without (λ c. c == slash) (normalize_path path) ≡ true)
          × ((normalize_path path ≡ []) ⊎ ((s : Text) × (normalize_path path ≡ slash ∷ s))))
unfolding normalize_path Rooted
normalize_path_shape path = go (trim path)
  where
    cut :
        (b : Bool) (s : Text)
        → b ≡ ltb 1 (length (slash ∷ s))
        → IsShaped (if b then trim_end_matches slash (slash ∷ s) else slash ∷ s)
    cut true s e = cut-IsShaped s
    cut false [] e = inl refl
    cut false (c ∷ s) e = absurd (ground arith)

    go :
        (t : Text)
        → IsShaped (
            let prefixed = if starts_with slash t then t else slash ∷ t in
            if is_empty t
            then slash ∷ []
            else if ltb 1 (length prefixed)
            then trim_end_matches slash prefixed
            else prefixed)
    go [] = inl refl
    go (c ∷ t) = elim (Bool-cases (c == slash)) [
      | inl e ↦ rw ((==_iff c slash).0 e) (cut _ t refl)
      | inr e ↦ rw e (cut _ (c ∷ t) refl)
    ]

pub begins-normalize_path :
    (path : Text) → begins_without is_whitespace (normalize_path path) ≡ true
unfolding is_whitespace
begins-normalize_path path = elim (normalize_path_shape path) [
  | inl e ↦ rw e refl
  | inr (_, inl e) ↦ rw e refl
  | inr (_, inr (s, e)) ↦ rw e refl
]

-- White space at the end of a normalized path is the one thing that a second normalization sees.
pub first_path_segment-normalize_path :
    (path : Text)
    → ends_without is_whitespace (normalize_path path) ≡ true
    → first_path_segment (normalize_path path)
      ≡ first (split_path_segments (normalize_path (normalize_path path)))
first_path_segment-normalize_path path e =
    first_path_segment-split_path_segments (normalize_path path)
    ∙ ap first (
        sym (
          split_path_segments-normalize_path (normalize_path path)
          ∙ ap split_path_segments (trim_id (normalize_path path) (begins-normalize_path path) e)))
