-- ===== src/Routing/Path/Segments.antt =====
-- Splitting a path into segments and joining segments to a path.
use nivasa.Prelude.{
  is_empty, first, find, keep, All, Text, split, join, Lacks, split_whole, split-append,
  split-Lacks, keep-nonempty, ◌≡◌, refl, ap, ◌∙◌, ◌≢◌, Bool, true, not, List, [], ◌∷◌,
}
use nivasa.Routing.Path.{slash, split_path_segments, join_segments, first_path_segment}

-- What `split_path_segments` yields: not empty, and without a slash.
abbrev pub IsSegment : Text → Type 0
IsSegment w = (w ≢ []) × Lacks slash w

pub split_path_segments-IsSegment : (path : Text) → All IsSegment (split_path_segments path)
unfolding split_path_segments
split_path_segments-IsSegment path = keep-nonempty slash (split slash path) (split-Lacks slash path)

abbrev nonempty : Text → Bool
nonempty w = not (is_empty w)

nonempty_lem : (w : Text) → w ≢ [] → nonempty w ≡ true
nonempty_lem [] h = absurd (h refl)
nonempty_lem (c ∷ w) h = refl

keep-nonempty_segments :
    (w : Text) (ws : List Text) → IsSegment w → keep nonempty (w ∷ ws) ≡ w ∷ keep nonempty ws
keep-nonempty_segments w ws h = rw (nonempty_lem w h.0)

keep-split-join :
    (w : Text) (ws : List Text)
    → All IsSegment (w ∷ ws)
    → keep nonempty (split slash (join slash (w ∷ ws))) ≡ w ∷ ws
keep-split-join w [] (h, _) = rw (split_whole slash w h.1) (keep-nonempty_segments w [] h)
keep-split-join w (v ∷ ws) (h, hs) = rw (split-append slash w (join slash (v ∷ ws)) h.1) (
    keep-nonempty_segments w (split slash (join slash (v ∷ ws))) h
    ∙ ap (λ l. w ∷ l) (keep-split-join v ws hs))

-- Joining segments and splitting the path again gives the segments back.
pub split_path_segments-join_segments :
    (ws : List Text) → All IsSegment ws → split_path_segments (join_segments ws) ≡ ws
unfolding split_path_segments join_segments
split_path_segments-join_segments [] h = refl
split_path_segments-join_segments (w ∷ ws) h = keep-split-join w ws h

pub first_path_segment-split_path_segments :
    (path : Text) → first_path_segment path ≡ first (split_path_segments path)
unfolding first_path_segment split_path_segments
first_path_segment-split_path_segments path = go (split slash path)
  where
    go : (ws : List Text) → find nonempty ws ≡ first (keep nonempty ws)
    go [] = refl
    go ([] ∷ ws) = go ws
    go ((c ∷ w) ∷ ws) = refl
