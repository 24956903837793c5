-- ===== src/Routing/Path/Joined.antt =====
-- A joined path is normalized already.
use nivasa.Prelude.{
  ltb, ◌==◌, length, All, Text, join, Lacks, is_whitespace, ends_without, drop_end_id, last-append,
  trim_id, ℕ, suc, ◌≡◌, refl, ◌∙◌, ◌≢◌, Bool, true, List, [], ◌∷◌, ◌++◌, arith,
}
use nivasa.Routing.Path.{slash, normalize_path, join_segments}
use nivasa.Routing.Path.Segments.{IsSegment}

abbrev is_slash : ℕ → Bool
is_slash c = c == slash

ends_without-Lacks : (w : Text) → Lacks slash w → ends_without is_slash w ≡ true
ends_without-Lacks [] h = refl
ends_without-Lacks (c ∷ []) (n, h) = ground arith
ends_without-Lacks (c ∷ d ∷ w) (n, h) = ends_without-Lacks (d ∷ w) h

ends_without-cons :
    (c : ℕ) (t : Text) → t ≢ [] → ends_without is_slash (c ∷ t) ≡ ends_without is_slash t
ends_without-cons c [] n = absurd (n refl)
ends_without-cons c (d ∷ t) n = refl

join_ne : (w : Text) (ws : List Text) → w ≢ [] → join slash (w ∷ ws) ≢ []
join_ne w [] n = n
join_ne [] (v ∷ ws) n = λ e. n refl
join_ne (c ∷ w) (v ∷ ws) n = λ e. cc

ends_without-append :
    (w : Text) (c : ℕ) (t : Text)
    → ends_without is_slash (w ++ (c ∷ t)) ≡ ends_without is_slash (c ∷ t)
ends_without-append w c t = rw (last-append w c t, ends_without) refl

ends_without-join :
    (w : Text) (ws : List Text)
    → All IsSegment (w ∷ ws)
    → ends_without is_slash (join slash (w ∷ ws)) ≡ true
ends_without-join w [] (h, _) = ends_without-Lacks w h.1
ends_without-join w (v ∷ ws) (h, (k, hs)) =
    ends_without-append w slash (join slash (v ∷ ws))
    ∙ ends_without-cons slash (join slash (v ∷ ws)) (join_ne v ws k.0)
    ∙ ends_without-join v ws (k, hs)

normalize_rooted :
    (t : Text)
    → t ≢ []
    → ends_without is_slash t ≡ true
    → ends_without is_whitespace (slash ∷ t) ≡ true
    → normalize_path (slash ∷ t) ≡ slash ∷ t
unfolding normalize_path is_whitespace
normalize_rooted [] n e clean = absurd (n refl)
normalize_rooted (c ∷ t) n e clean =
    let long : ltb 1 (suc (suc (length t))) ≡ true = ground arith in
    rw (trim_id (slash ∷ c ∷ t) refl clean) (rw long (drop_end_id is_slash (slash ∷ c ∷ t) e))

-- A path joined from segments is its own normal form unless it ends in white space.
pub normalize_path-join_segments :
    (ws : List Text)
    → All IsSegment ws
    → ends_without is_whitespace (join_segments ws) ≡ true
    → normalize_path (join_segments ws) ≡ join_segments ws
unfolding join_segments
normalize_path-join_segments [] h clean = unfold normalize_path is_whitespace in refl
normalize_path-join_segments (w ∷ ws) h clean =
    normalize_rooted (join slash (w ∷ ws)) (join_ne w ws h.0.0) (ends_without-join w ws h) clean
