-- ===== src/Noise/Glob/Meaning.antt =====
-- What it means for a pattern to match a path, segment by segment, with no order of search in it.
use dark_canary.Prelude.{◌≡◌, Bool, true, false, ◌||◌, List, [], ◌∷◌, Bytes, codes, bytes_eq, ◌==◌}

-- The segment `**`.
abbrev pub is_deep : Bytes → Bool
is_deep q = q == codes "**"

-- A segment of the pattern that stands for one segment of the path.
abbrev pub fits : Bytes → Bytes → Bool
fits q c = q == codes "*" || q == c

pub data Matches : List Bytes → List Bytes → Type 0 where
  nothing_left : Matches [] []
  one_segment :
      {q c : Bytes} {p s : List Bytes}
      → is_deep q ≡ false
      → fits q c ≡ true
      → Matches p s
      → Matches (q ∷ p) (c ∷ s)
  deep_ends : {q : Bytes} {p s : List Bytes} → is_deep q ≡ true → Matches p s → Matches (q ∷ p) s
  deep_goes_on :
      {q c : Bytes} {p s : List Bytes}
      → is_deep q ≡ true
      → Matches (q ∷ p) s
      → Matches (q ∷ p) (c ∷ s)

-- The rest of the path from somewhere on is matched.
pub data Later (p : List Bytes) : List Bytes → Type 0 where
  here : {s : List Bytes} → Matches p s → Later p s
  beyond : {c : Bytes} {s : List Bytes} → Later p s → Later p (c ∷ s)

module _ {p : List Bytes} where
  -- A pattern that begins with `**` matches where the rest of it matches later.
  pub deep-Later : {q : Bytes} {s : List Bytes} → is_deep q ≡ true → Matches (q ∷ p) s → Later p s
  deep-Later d (one_segment n f m) = absurd (cc)
  deep-Later d (deep_ends _ m) = here m
  deep-Later d (deep_goes_on _ m) = beyond (deep-Later d m)

  pub Later-deep : {q : Bytes} {s : List Bytes} → is_deep q ≡ true → Later p s → Matches (q ∷ p) s
  Later-deep d (here m) = deep_ends d m
  Later-deep d (beyond l) = deep_goes_on d (Later-deep d l)

  pub Later-deep-Later :
      {q : Bytes} {s : List Bytes} → is_deep q ≡ true → Later (q ∷ p) s → Later p s
  Later-deep-Later d (here m) = deep-Later d m
  Later-deep-Later d (beyond l) = beyond (Later-deep-Later d l)

  pub segment_inv :
      {q c : Bytes} {s : List Bytes}
      → is_deep q ≡ false
      → Matches (q ∷ p) (c ∷ s)
      → (fits q c ≡ true) × Matches p s
  segment_inv n (one_segment _ f m) = (f, m)
  segment_inv n (deep_ends d m) = absurd (cc)
  segment_inv n (deep_goes_on d m) = absurd (cc)

  -- Why greed loses nothing: behind a segment that fits, the rest of the pattern is matched later.
  pub drop_segment :
      {q c : Bytes} (s : List Bytes) → is_deep q ≡ false → Later (q ∷ p) (c ∷ s) → Later p s
  drop_segment s n (here m) = here (segment_inv n m).1
  drop_segment [] n (beyond (here (deep_ends d m))) = absurd (cc)
  drop_segment (c ∷ s) n (beyond l) = beyond (drop_segment s n l)

  pub Later-end : Later p [] → Matches p []
  Later-end (here m) = m

  pub Later-rest : {c : Bytes} {s : List Bytes} → Later p (c ∷ s) → ¬ Matches p (c ∷ s) → Later p s
  Later-rest (here m) n = absurd (n m)
  Later-rest (beyond l) n = l
