-- ===== src/Noise/Glob/Search.antt =====
-- internal/noise/noise.go: the loop of `matchSegments` and the relation `Matches`.
use mathlib.Core.Bool.{false≢true}
use dark_canary.Prelude.{
  ℕ, zero, suc, ◌+◌, ◌*◌, ◌≤◌, ◌<◌, ◌≡◌, refl, ◌↔◌, Bool, true, false, Option, none, some, [], ◌∷◌,
  arith, Bytes, bytes_eq, nat_eq, length, Bool-cases, inl, inr,
}
use dark_canary.Noise.Glob.Meaning.{
  is_deep, fits, Matches, nothing_left, one_segment, deep_ends, Later, here, beyond, Later-deep,
  Later-deep-Later, segment_inv, drop_segment, Later-end, Later-rest,
}
use dark_canary.Noise.Glob.Loop.{Segments, Saved, finish, retry, loop, match_segments}

-- The run ends with the right answer about `G`.
abbrev Answers : Type 0 → Option Bool → Type 0
Answers G none = ⊥
Answers G (some true) = G
Answers G (some false) = ¬ G

Answers-iff : {G : Type 0} (b : Bool) → (b ≡ true) ↔ G → Answers G (some b)
Answers-iff true e = e.0 refl
Answers-iff false e = λ g. false≢true (e.1 g)

finish_sound : (p : Segments) → finish p ≡ true → Matches p []
unfolding finish
finish_sound [] h = nothing_left
finish_sound (q ∷ p) h = elim (Bool-cases (is_deep q)) [
  | inl d ↦ deep_ends d (finish_sound p (ground arith))
  | inr n ↦ absurd (ground arith)
]

finish_complete : {p : Segments} → Matches p [] → finish p ≡ true
unfolding finish
finish_complete nothing_left = refl
finish_complete (deep_ends d m) = rw d (finish_complete m)

finish_iff : (p : Segments) → (finish p ≡ true) ↔ Matches p []
finish_iff p = (finish_sound p, finish_complete)

-- `G` is the question asked at the start, and every pattern in play is shorter than `k`.
module _ (G : Type 0) (k : ℕ) where
  -- What the saved place means; `m` bounds the path that is left to try from there.
  abbrev SavedFor : ℕ → Segments → Segments → Saved → Type 0
  SavedFor m p s none = G → Matches p s
  SavedFor m p s (some (bp, bs)) =
      (G ↔ Later bp bs)
      × (Matches bp bs → Matches p s)
      × (length s ≤ length bs)
      × (length bs ≤ m)
      × (length bp < k)

  record Searching (f m : ℕ) (p s : Segments) (saved : Saved) : Type 0 where
    found : Matches p s → G
    ahead : G → Later p s
    back : SavedFor m p s saved
    path_bound : length s ≤ m
    pattern_bound : length p < k
    fuel : m * k + length p < f

  -- Behind a `**` the search starts afresh, with a place to come back to.
  restart :
      {f m : ℕ} {p s : Segments}
      → G ↔ Later p s
      → length s ≤ m
      → length p < k
      → m * k + length p < f
      → Searching f m p s (some (p, s))
  restart g hs hp hf = record {
    found = λ d. g.1 (here d);
    ahead = g.0;
    back = (g, λ d. d, omega arith, hs, hp);
    path_bound = hs;
    pattern_bound = hp;
    fuel = hf;
  }

  onward_back :
      (m : ℕ) (q c : Bytes) (p s : Segments) (saved : Saved)
      → is_deep q ≡ false
      → SavedFor m (q ∷ p) (c ∷ s) saved
      → SavedFor m p s saved
  onward_back m q c p s none n h = λ g. (segment_inv n (h g)).1
  onward_back m q c p s (some (bp, bs)) n (g, down, shorter, hs, hp) =
      (g, λ d. (segment_inv n (down d)).1, omega arith, hs, hp)

  onward_Searching :
      {f m : ℕ} {q c : Bytes} {p s : Segments} {saved : Saved}
      → is_deep q ≡ false
      → fits q c ≡ true
      → Searching (suc f) m (q ∷ p) (c ∷ s) saved
      → Searching f m p s saved
  onward_Searching {m} {q} {c} {p} {s} {saved} n h i = record {
    found = λ d. i.found (one_segment n h d);
    ahead = λ g. drop_segment s n (i.ahead g);
    back = onward_back m q c p s saved n i.back;
    path_bound = omega arith;
    pattern_bound = omega arith;
    fuel = omega arith;
  }

  -- A mismatch gives one more segment to the last `**`, or refutes the question.
  retry-Answers :
      {f : ℕ} {c : Bytes} {p s : Segments} (m : ℕ) (saved : Saved)
      (next : Segments → Segments → Saved → Option Bool)
      → ((m' : ℕ) (p' s' : Segments) (b : Saved)
          → Searching f m' p' s' b
          → Answers G (next p' s' b))
      → Searching (suc f) m p (c ∷ s) saved
      → ¬ Matches p (c ∷ s)
      → Answers G (retry saved next)
  unfolding retry
  retry-Answers m none next ih i miss = λ g. miss (i.back g)
  retry-Answers m (some (bp, [])) next ih i miss = absurd (omega arith)
  retry-Answers zero (some (bp, c' ∷ bs)) next ih i miss = absurd (omega arith)
  retry-Answers (suc m) (some (bp, c' ∷ bs)) next ih i miss =
      let (g, down, _, _, _) = i.back in
      ih m bp bs (some (bp, bs)) (
        restart ((λ a. Later-rest (g.0 a) (λ d. miss (down d))), (λ l. g.1 (beyond l)))
          (omega arith) (omega arith) (omega arith))

  loop-Answers :
      (f m : ℕ) (p s : Segments) (saved : Saved)
      → Searching f m p s saved
      → Answers G (loop f p s saved)
  unfolding loop
  loop-Answers zero m p s saved i = absurd (omega arith)
  loop-Answers (suc f) m p [] saved i =
      let (sound, complete) = finish_iff p in
      Answers-iff (finish p) ((λ h. i.found (sound h)), (λ g. complete (Later-end (i.ahead g))))
  loop-Answers (suc f) m [] (c ∷ s) saved i =
      retry-Answers m saved (loop f) (loop-Answers f) i (λ d. elim d [ ])
  loop-Answers (suc f) m (q ∷ p) (c ∷ s) saved i = elim (Bool-cases (is_deep q)) [
    | inl d ↦ rw d (
        loop-Answers f m p (c ∷ s) (some (p, c ∷ s)) (
          restart ((λ g. Later-deep-Later d (i.ahead g)), (λ l. i.found (Later-deep d l)))
            i.path_bound (omega arith) (omega arith)))
    | inr n ↦ rw n (elim (Bool-cases (fits q c)) [
      | inl h ↦ rw h (loop-Answers f m p s saved (onward_Searching n h i))
      | inr miss ↦ rw miss (
          retry-Answers m saved (loop f) (loop-Answers f) i
            (λ d. false≢true (ground (arith, segment_inv n d))))
    ])
  ]

match_segments-Answers : (p s : Segments) → Answers (Matches p s) (match_segments p s)
unfolding match_segments
match_segments-Answers p s =
    loop-Answers (Matches p s) (length p + 1) _ (length s) p s none (record {
      found = λ d. d;
      ahead = here;
      back = λ d. d;
      path_bound = omega arith;
      pattern_bound = omega arith;
      fuel = omega arith;
    })

-- The loop ends within its fuel, and answers true exactly if the pattern matches the path.
pub match_segments_lem :
    (p s : Segments) → (b : Bool) × (match_segments p s ≡ some b) × ((b ≡ true) ↔ Matches p s)
match_segments_lem p s = conclude (match_segments p s) (match_segments-Answers p s)
  where
    conclude :
        (o : Option Bool)
        → Answers (Matches p s) o
        → (b : Bool) × (o ≡ some b) × ((b ≡ true) ↔ Matches p s)
    conclude none a = absurd a
    conclude (some true) a = (true, refl, ((λ _. a), (λ _. refl)))
    conclude (some false) a = (false, refl, ((λ h. absurd (false≢true h)), (λ d. absurd (a d))))
