-- ===== src/Noise/Glob/Loop.antt =====
-- internal/noise/noise.go: the loop of `matchSegments`, on fuel, and `split` and `matchGlob`.
use dark_canary.Prelude.{
  ℕ, zero, suc, ◌+◌, ◌*◌, Bool, true, false, Option, none, some, List, [], ◌∷◌, Bytes, bytes_eq,
  nat_eq, ◌==◌, if◌then◌else◌, length, to_lower,
}
use dark_canary.Noise.Glob.Meaning.{is_deep, fits}

abbrev pub Segments : Type 0
Segments = List Bytes

-- `star` and `rewind`: the pattern behind the last `**`, and the path from which it was tried.
abbrev pub Saved : Type 0
Saved = Option (Segments × Segments)

-- The loop over the trailing `**`, and the final test.
unfoldable pub finish : Segments → Bool
finish [] = true
finish (q ∷ p) = if is_deep q then finish p else false

-- The last two cases of the switch: the last `**` swallows one more segment.
unfoldable pub retry : Saved → (Segments → Segments → Saved → Option Bool) → Option Bool
retry none next = some false
retry (some (bp, [])) next = some (finish bp)
retry (some (bp, c ∷ bs)) next = next bp bs (some (bp, bs))

unfoldable pub loop : ℕ → Segments → Segments → Saved → Option Bool
loop zero p s saved = none
loop (suc f) p [] saved = some (finish p)
loop (suc f) [] (c ∷ s) saved = retry saved (loop f)
loop (suc f) (q ∷ p) (c ∷ s) saved =
    let deeper = loop f p (c ∷ s) (some (p, c ∷ s)) in
    let onward = loop f p s saved in
    if is_deep q then deeper else if fits q c then onward else retry saved (loop f)

-- `matchSegments`; the fuel is one round for each place in the pattern and each place in the path.
unfoldable pub match_segments : Segments → Segments → Option Bool
unfolding loop retry finish
match_segments p s = loop ((length s + 1) * (length p + 1)) p s none

-- `strings.Split(s, "/")`
abbrev pub put_first : ℕ → Segments → Segments
put_first c [] = (c ∷ []) ∷ []
put_first c (w ∷ ws) = (c ∷ w) ∷ ws

unfoldable pub split_slashes : Bytes → Segments
split_slashes [] = [] ∷ []
split_slashes (c ∷ s) = if c == b'/' then [] ∷ split_slashes s else put_first c (split_slashes s)

abbrev pub trim_slash : Bytes → Bytes
trim_slash [] = []
trim_slash (c ∷ s) = if c == b'/' then s else c ∷ s

abbrev pub no_blank : Segments → Segments
no_blank ([] ∷ []) = []
no_blank ws = ws

unfoldable pub split : Bytes → Segments
unfolding split_slashes
split s = no_blank (split_slashes (trim_slash s))

-- `matchGlob`; a loop that is out of fuel counts as no match.
unfoldable pub match_glob : Bytes → Bytes → Bool
unfolding match_segments split to_lower
match_glob pattern path = elim (match_segments (split (to_lower pattern)) (split (to_lower path))) [
  | none ↦ false
  | some b ↦ b
]
