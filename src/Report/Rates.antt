-- ===== src/Report/Rates.antt =====
-- internal/report/report.go: how often a finding can be counted, against the pairs.
use dark_canary.Prelude.{
  ◌+◌, ◌≤◌, ◌≡◌, ◌≢◌, refl, sym, ◌∙◌, inl, inr, List, [], ◌∷◌, arith, Bytes, nat_eq, bytes_eq,
  bytes_beq_iff, length, All, All-insert, All-lookup, Distinct, Distinct-snoc, lookup, insert, keys,
  keys-insert, contains-keys, Bool-cases, Option-cases,
}
use dark_canary.Collector.Types.{Time}
use dark_canary.Diff.Engine.{Kind, Difference, Result, is_identical}
use dark_canary.Diff.Apart.Growth.{Apart}
use dark_canary.Report.Aggregator.{
  Group, Aggregator, group_key, new_group, seen_again, add_difference, add_differences, add,
}
use dark_canary.Report.Counts.{
  none_identical, add_all, is_finding, occurrences, total_occurrences, identical_results,
}

none_there :
    (k : Kind) (path : Bytes) (ds : List Difference) (q : Bytes)
    → q ≡ path
    → All (λ (d : Difference). q ≢ d.path) ds
    → occurrences k path ds ≡ 0
unfolding occurrences
none_there k path [] q here h = refl
none_there k path (d ∷ ds) q here h =
    let other : ¬ (d.path ≡ path) = λ there. h.0 (here ∙ sym there) in
    ground (arith, bytes_beq_iff d.path path, none_there k path ds q here h.1)

-- A finding occurs once at most among differences at distinct paths.
occurrences_le :
    (k : Kind) (path : Bytes) (ds : List Difference) → Apart ds → occurrences k path ds ≤ 1
unfolding occurrences
occurrences_le k path [] a = omega arith
occurrences_le k path (d ∷ ds) a = elim (Bool-cases (is_finding k path d)) [
  | inl here ↦
      let there : d.path ≡ path = (bytes_beq_iff d.path path).0 (ground arith) in
      rw here (omega (arith, none_there k path ds d.path there a.0))
  | inr other ↦ rw other (omega (arith, occurrences_le k path ds a.1))
]

-- Every group stands under its own key, and no key stands twice.
abbrev IsKeyed : List (Bytes × Group) → Type 0
IsKeyed groups =
    All (λ (q : Bytes × Group). q.0 ≡ group_key q.1.kind q.1.path) groups × Distinct (keys groups)

insert-IsKeyed :
    (k : Kind) (path : Bytes) (g : Group) (groups : List (Bytes × Group))
    → group_key k path ≡ group_key g.kind g.path
    → IsKeyed groups
    → IsKeyed (insert (group_key k path) g groups)
insert-IsKeyed k path g groups own h = (
  All-insert (λ (q : Bytes × Group). q.0 ≡ group_key q.1.kind q.1.path) (group_key k path) g groups
      own h.0,
  rw (keys-insert (group_key k path) g groups)
      (elim (Option-cases (lookup (group_key k path) groups)) [
        | inl fresh ↦ rw fresh (
            Distinct-snoc (keys groups) (group_key k path) h.1
              (ground (arith, contains-keys (group_key k path) groups, fresh)))
        | inr (old, there) ↦ rw there h.1
      ]),
)

add_difference-IsKeyed :
    (now : Time) (r : Result) (d : Difference) (groups : List (Bytes × Group))
    → IsKeyed groups
    → IsKeyed (add_difference now r d groups)
unfolding add_difference new_group
add_difference-IsKeyed now r d groups h =
    elim (Option-cases (lookup (group_key d.kind d.path) groups)) [
      | inl fresh ↦
          rw (fresh, add_difference)
            (insert-IsKeyed d.kind d.path (seen_again now (new_group now r d)) groups refl h)
      | inr (g, old) ↦
          rw (old, add_difference)
            (insert-IsKeyed d.kind d.path (seen_again now g) groups
              (All-lookup (λ (q : Bytes × Group). q.0 ≡ group_key q.1.kind q.1.path)
                (group_key d.kind d.path) groups h.0 old)
              h)
    ]

add_differences-IsKeyed :
    (now : Time) (r : Result) (ds : List Difference) (groups : List (Bytes × Group))
    → IsKeyed groups
    → IsKeyed (add_differences now r ds groups)
unfolding add_differences
add_differences-IsKeyed now r [] groups h = h
add_differences-IsKeyed now r (d ∷ ds) groups h =
    add_differences-IsKeyed now r ds (add_difference now r d groups)
      (add_difference-IsKeyed now r d groups h)

add-IsKeyed :
    (now : Time) (r : Result) (a : Aggregator) → IsKeyed a.groups → IsKeyed (add now r a).groups
unfolding add
add-IsKeyed now r a h = elim (Bool-cases (is_identical r)) [
  | inl same ↦ rw same h
  | inr other ↦ rw other (add_differences-IsKeyed now r r.differences a.groups h)
]

pub add_all-IsKeyed :
    (rs : List (Time × Result)) (a : Aggregator) → IsKeyed a.groups → IsKeyed (add_all rs a).groups
unfolding add_all
add_all-IsKeyed [] a h = h
add_all-IsKeyed ((now, r) ∷ rs) a h = add_all-IsKeyed rs (add now r a) (add-IsKeyed now r a h)

-- A finding occurs at most once in each result that is not identical.
pub total_occurrences_le :
    (k : Kind) (path : Bytes) (rs : List (Time × Result))
    → All (λ (q : Time × Result). Apart q.1.differences) rs
    → total_occurrences k path rs + identical_results rs ≤ length rs
unfolding total_occurrences identical_results is_identical
total_occurrences_le k path [] h = omega arith
total_occurrences_le k path ((now, r) ∷ rs) h = ground (
  arith,
  none_identical k path r.differences,
  occurrences_le k path r.differences h.0,
  total_occurrences_le k path rs h.1,
)
