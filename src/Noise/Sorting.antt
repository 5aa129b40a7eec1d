-- ===== src/Noise/Sorting.antt =====
-- internal/noise/noise.go: the `sort` normalisation.
use mathlib.Core.List.{Perm}
use mathlib.Core.Bool.{false≢true}
use dark_canary.Prelude.{
  ◌≢◌, ◌≡◌, refl, sym, ◌∙◌, ◌↔◌, true, false, ◌&&◌, some, List, [], ◌∷◌, arith, Bytes, codes,
  nat_eq, bytes_eq, bytes_beq_iff, bytes_beq, ◌==◌, length, map, bytes_lt, bytes_lt_asym,
  bytes_lt_trans, bytes_lt_total, sort, sort_eq_iff_perm, Texts-set, Bool-cases, inl, inr,
}
use dark_canary.Diff.Value.{array, Items, list_items}
use dark_canary.Diff.Runtime.{Runtime}
use dark_canary.Noise.Rules.{Rule, Ruleset, match_rule}
use dark_canary.Noise.Normalise.{
  parse_normalise, same_texts, canonical, equal_sorted, equal, compare,
}
use dark_canary.Noise.Suppress.{suppress}

same_texts_sound :
    (xs ys : List Bytes) → (length xs == length ys && same_texts xs ys) ≡ true → xs ≡ ys
unfolding same_texts
same_texts_sound [] [] h = refl
same_texts_sound [] (y ∷ ys) h = absurd (ground arith)
same_texts_sound (x ∷ xs) [] h = absurd (ground arith)
same_texts_sound (x ∷ xs) (y ∷ ys) h = ground (arith, bytes_beq_iff x y, same_texts_sound xs ys)

same_texts_refl : (xs : List Bytes) → (length xs == length xs && same_texts xs xs) ≡ true
unfolding same_texts
same_texts_refl [] = refl
same_texts_refl (x ∷ xs) = ground (arith, bytes_beq_iff x x, same_texts_refl xs)

same_texts_iff :
    (xs ys : List Bytes) → ((length xs == length ys && same_texts xs ys) ≡ true) ↔ (xs ≡ ys)
same_texts_iff xs ys = (same_texts_sound xs ys, λ e. rw e (same_texts_refl ys))

sorted_iff_perm : (xs ys : List Bytes) → (sort bytes_lt xs ≡ sort bytes_lt ys) ↔ Perm xs ys
sorted_iff_perm = sort_eq_iff_perm bytes_lt bytes_lt_asym bytes_lt_trans bytes_lt_total Texts-set

module _ (rt : Runtime) where
  abbrev pub texts_of : Items → List Bytes
  texts_of xs = map (canonical rt) (list_items xs)

  equal_sorted_iff :
      (xs ys : Items)
      → (equal_sorted rt (array xs) (array ys) ≡ true) ↔ Perm (texts_of xs) (texts_of ys)
  unfolding equal_sorted
  equal_sorted_iff xs ys =
      let s = sorted_iff_perm (texts_of xs) (texts_of ys) in
      let t = same_texts_iff (sort bytes_lt (texts_of xs)) (sort bytes_lt (texts_of ys)) in
      ((λ h. s.0 (t.0 h)), (λ p. t.1 (s.1 p)))

  -- A rule that asks for `sort` and does not ignore suppresses a difference of two arrays exactly if
  -- their texts differ and their elements are the same, as often, in some order.
  pub suppress-sort_iff :
      (rs : Ruleset) (path : Bytes) (rule : Rule) (xs ys : Items)
      → match_rule rs path ≡ some rule
      → rule.ignore ≡ false
      → rule.normalise ≡ codes "sort"
      → (suppress rt rs path (array xs) (array ys) ≡ true)
        ↔ ((canonical rt (array xs) ≢ canonical rt (array ys)) × Perm (texts_of xs) (texts_of ys))
  unfolding suppress compare parse_normalise equal bytes_beq
  suppress-sort_iff rs path rule xs ys m i n =
      rw (m, suppress, i, n)
        (elim (Bool-cases (canonical rt (array xs) == canonical rt (array ys))) [
          | inl same ↦
              rw same
                ((λ h. absurd (false≢true h)), (λ p. absurd (p.0 ((bytes_beq_iff _ _).0 same))))
          | inr other ↦ rw other (
            (λ h. (
              (λ e. absurd (false≢true (sym other ∙ (bytes_beq_iff _ _).1 e))),
              (equal_sorted_iff xs ys).0 h,
            )),
            (λ p. (equal_sorted_iff xs ys).1 p.1),
          )
        ])
