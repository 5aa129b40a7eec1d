-- ===== src/Report/Counts.antt =====
-- internal/report/report.go: what `Add` counts, over a run of results.
use dark_canary.Prelude.{
  ℕ, ◌+◌, ◌≡◌, refl, Bool, true, false, ◌&&◌, Option, none, some, List, [], ◌∷◌, arith, Bytes,
  nat_eq, bytes_eq, bytes_beq, bytes_beq_iff, ◌==◌, if◌then◌else◌, length, lookup, insert,
  lookup-insert, Option-cases, inl, inr,
}
use dark_canary.Collector.Types.{Time}
use dark_canary.Diff.Engine.{
  Kind, status, header, body_val, body_key, shape, Difference, Result, is_identical,
}
use dark_canary.Report.Aggregator.{
  Group, Aggregator, group_key, new_group, seen_again, add_difference, add_differences, add,
}

abbrev pub same_kind : Kind → Kind → Bool
same_kind status status = true
same_kind header header = true
same_kind body_val body_val = true
same_kind body_key body_key = true
same_kind shape shape = true
same_kind _ _ = false

-- The finding: a difference of this kind at this path.
abbrev pub is_finding : Kind → Bytes → Difference → Bool
is_finding k path d = same_kind d.kind k && d.path == path

group_key_beq :
    (k j : Kind) (p q : Bytes) → (group_key k p == group_key j q) ≡ (same_kind k j && p == q)
unfolding group_key bytes_beq
group_key_beq status status p q = refl
group_key_beq header header p q = refl
group_key_beq body_val body_val p q = refl
group_key_beq body_key body_key p q = refl
group_key_beq shape shape p q = refl
group_key_beq _ _ p q = refl

-- How often the groups count a finding.
abbrev pub count_at : Option Group → ℕ
count_at none = 0
count_at (some g) = g.count

unfoldable pub counted : Kind → Bytes → List (Bytes × Group) → ℕ
counted k path groups = count_at (lookup (group_key k path) groups)

-- How often a list of differences shows a finding.
unfoldable pub occurrences : Kind → Bytes → List Difference → ℕ
occurrences k path [] = 0
occurrences k path (d ∷ ds) = (if is_finding k path d then 1 else 0) + occurrences k path ds

-- One round stores a group under the key of its difference, counted once more.
add_difference_lem :
    (now : Time) (r : Result) (d : Difference) (groups : List (Bytes × Group))
    → (g : Group) × (add_difference now r d groups ≡ insert (group_key d.kind d.path) g groups)
      × (g.count ≡ count_at (lookup (group_key d.kind d.path) groups) + 1)
unfolding add_difference
add_difference_lem now r d groups = elim (Option-cases (lookup (group_key d.kind d.path) groups)) [
  | inl fresh ↦ (seen_again now (new_group now r d), ground (arith, fresh), ground (arith, fresh))
  | inr (g, old) ↦ (seen_again now g, ground (arith, old), ground (arith, old))
]

counted-insert :
    (d : Difference) (g : Group) (k : Kind) (path : Bytes) (groups : List (Bytes × Group))
    → g.count ≡ count_at (lookup (group_key d.kind d.path) groups) + 1
    → counted k path (insert (group_key d.kind d.path) g groups)
      ≡ counted k path groups + (if is_finding k path d then 1 else 0)
unfolding counted
counted-insert d g k path groups e = ground (
  arith,
  lookup-insert {V = Group} (group_key d.kind d.path) (group_key k path) g groups,
  group_key_beq d.kind k d.path path,
  bytes_beq_iff (group_key d.kind d.path) (group_key k path),
)

counted-add_difference :
    (now : Time) (r : Result) (d : Difference) (k : Kind) (path : Bytes)
    (groups : List (Bytes × Group))
    → counted k path (add_difference now r d groups)
      ≡ counted k path groups + (if is_finding k path d then 1 else 0)
counted-add_difference now r d k path groups =
    let (g, stored, count) = add_difference_lem now r d groups in
    rw stored (counted-insert d g k path groups count)

counted-add_differences :
    (now : Time) (r : Result) (ds : List Difference) (k : Kind) (path : Bytes)
    (groups : List (Bytes × Group))
    → counted k path (add_differences now r ds groups)
      ≡ counted k path groups + occurrences k path ds
unfolding add_differences occurrences
counted-add_differences now r [] k path groups = omega arith
counted-add_differences now r (d ∷ ds) k path groups = omega (
  arith,
  counted-add_differences now r ds k path (add_difference now r d groups),
  counted-add_difference now r d k path groups,
)

-- Results in the order in which they are added, each with the time that the clock shows.
unfoldable pub add_all : List (Time × Result) → Aggregator → Aggregator
add_all [] a = a
add_all ((now, r) ∷ rs) a = add_all rs (add now r a)

unfoldable pub total_occurrences : Kind → Bytes → List (Time × Result) → ℕ
total_occurrences k path [] = 0
total_occurrences k path ((now, r) ∷ rs) =
    occurrences k path r.differences + total_occurrences k path rs

unfoldable pub identical_results : List (Time × Result) → ℕ
identical_results [] = 0
identical_results ((now, r) ∷ rs) = (if is_identical r then 1 else 0) + identical_results rs

unfoldable pub total_suppressed : List (Time × Result) → ℕ
total_suppressed [] = 0
total_suppressed ((now, r) ∷ rs) = r.suppressed + total_suppressed rs

pub none_identical :
    (k : Kind) (path : Bytes) (ds : List Difference) → length ds ≡ 0 → occurrences k path ds ≡ 0
unfolding occurrences
none_identical k path [] h = refl
none_identical k path (d ∷ ds) h = absurd (omega arith)

counted-add :
    (now : Time) (r : Result) (k : Kind) (path : Bytes) (a : Aggregator)
    → counted k path (add now r a).groups
      ≡ counted k path a.groups + occurrences k path r.differences
unfolding add is_identical
counted-add now r k path a = ground (
  arith,
  none_identical k path r.differences,
  counted-add_differences now r r.differences k path a.groups,
)

add-totals :
    (now : Time) (r : Result) (a : Aggregator)
    → ((add now r a).pairs ≡ a.pairs + 1)
      × ((add now r a).identical ≡ a.identical + (if is_identical r then 1 else 0))
      × ((add now r a).suppressed ≡ a.suppressed + r.suppressed)
unfolding add
add-totals now r a = ground arith

-- A run of results adds to the report what it shows: the count of every finding is the number of
-- its occurrences, and the pairs, the identical pairs and the suppressions are their totals.
pub add_all-counts :
    (rs : List (Time × Result)) (a : Aggregator) (k : Kind) (path : Bytes)
    → (counted k path (add_all rs a).groups ≡ counted k path a.groups + total_occurrences k path rs)
      × ((add_all rs a).pairs ≡ a.pairs + length rs)
      × ((add_all rs a).identical ≡ a.identical + identical_results rs)
      × ((add_all rs a).suppressed ≡ a.suppressed + total_suppressed rs)
unfolding add_all total_occurrences identical_results total_suppressed
add_all-counts [] a k path = (omega arith, omega arith, omega arith, omega arith)
add_all-counts ((now, r) ∷ rs) a k path =
    let (count, pairs, identical, suppressed) = add_all-counts rs (add now r a) k path in
    let (pairs', identical', suppressed') = add-totals now r a in
    (omega (arith, counted-add now r k path a), omega arith, omega arith, omega arith)
