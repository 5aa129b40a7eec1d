-- ===== src/Report/Shares.antt =====
-- internal/report/report.go: the counts and rates of the groups in `Summary`.
use dark_canary.Prelude.{
  ◌-◌, ◌≤◌, ◌≡◌, refl, sym, ap, ◌∙◌, ◌⊎◌, inl, inr, some, List, [], ◌∷◌, arith, Bytes, nat_eq,
  bytes_eq, ltb, map, lookup, All, All-both, All-found, All-sort, Bool-cases,
}
use dark_canary.Collector.Types.{Time}
use dark_canary.Diff.Engine.{Kind, Result}
use dark_canary.Diff.Apart.Growth.{Apart}
use dark_canary.Report.Aggregator.{
  Group, Summary, Aggregator, group_key, before, with_rate, summary, new,
}
use dark_canary.Report.Counts.{counted, add_all, add_all-counts}
use dark_canary.Report.Rates.{add_all-IsKeyed, total_occurrences_le}

-- A finding is counted in no more pairs than diverge, and its rate is that count over the pairs.
abbrev pub IsShare : Summary → Group → Type 0
IsShare sm g =
    (g.count ≤ sm.divergent) × ((sm.pairs ≡ 0) ⊎ (g.rate.0 ≡ g.count) × (g.rate.1 ≡ sm.pairs))

All-mapped :
    {A B : Type 0} (P : B → Type 0) (f : A → B) (xs : List A)
    → All (λ (x : A). P (f x)) xs
    → All P (map f xs)
All-mapped P f [] h = tt
All-mapped P f (x ∷ xs) h = (h.0, All-mapped P f xs h.1)

with_rate-IsShare :
    (sm : Summary) (g : Group) → g.count ≤ sm.divergent → IsShare sm (with_rate sm.pairs g)
with_rate-IsShare sm g h = elim (Bool-cases (ltb 0 sm.pairs)) [
  | inl some_pairs ↦ rw some_pairs (h, inr (refl, refl))
  | inr no_pair ↦ rw no_pair (h, inl (ground arith))
]

none_yet : (since : Time) (k : Kind) (path : Bytes) → counted k path (new since).groups ≡ 0
unfolding new counted lookup
none_yet since k path = refl

count_le :
    (since : Time) (rs : List (Time × Result)) (g : Group)
    → All (λ (q : Time × Result). Apart q.1.differences) rs
    → lookup (group_key g.kind g.path) (add_all rs (new since)).groups ≡ some g
    → g.count ≤ (add_all rs (new since)).pairs - (add_all rs (new since)).identical
unfolding new counted
count_le since rs g apart found =
    let (count, pairs, identical, _) = add_all-counts rs (new since) g.kind g.path in
    let few = total_occurrences_le g.kind g.path rs apart in
    let own : counted g.kind g.path (add_all rs (new since)).groups ≡ g.count = rw found refl in
    omega (arith, count, pairs, identical, few, own, none_yet since g.kind g.path)

-- In the summary of results of which none has two differences at one path, each finding is counted
-- in no more pairs than diverge, and its rate, where there are pairs, is its count over their number,
-- so that no rate is above one.
pub summary-IsShare :
    (since now : Time) (rs : List (Time × Result))
    → All (λ (q : Time × Result). Apart q.1.differences) rs
    → All
        (IsShare (summary now (add_all rs (new since))))
        (summary now (add_all rs (new since))).groups
unfolding summary new
summary-IsShare since now rs apart =
    let a : Aggregator = add_all rs (new since) in
    let (own, distinct) = add_all-IsKeyed rs (new since) (tt, tt) in
    All-sort before (IsShare (summary now a)) (map (λ e. with_rate a.pairs e.1) a.groups) (
      All-mapped (IsShare (summary now a)) (λ (e : Bytes × Group). with_rate a.pairs e.1) a.groups
        (All-both _ _ (λ (e : Bytes × Group). IsShare (summary now a) (with_rate a.pairs e.1))
          a.groups
          (λ (e : Bytes × Group) found mine.
            with_rate-IsShare (summary now a) e.1
              (count_le since rs e.1 apart (ap (λ k. lookup k a.groups) (sym mine) ∙ found)))
          (All-found a.groups distinct) own))
