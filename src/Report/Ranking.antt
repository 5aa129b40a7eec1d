-- ===== src/Report/Ranking.antt =====
-- internal/report/report.go: the order of `Summary`.
use mathlib.Core.List.{Perm}
use dark_canary.Prelude.{
  ℕ, ◌+◌, ◌≤◌, ◌<◌, ◌≡◌, ◌≢◌, ◌⊎◌, inl, inr, true, false, arith, nat_eq, map, codes, Bytes,
  bytes_eq, bytes_beq, bytes_beq_iff, ◌==◌, bytes_lt, bytes_lt_asym, bytes_lt_back, sort-perm,
  sort-IsSorted, IsSorted, List, [], ◌∷◌, All, All-map, Bool-cases,
}
use dark_canary.Collector.Types.{Time}
use dark_canary.Report.Aggregator.{Group, Aggregator, rank, before, with_rate, summary}

-- How much a severity weighs.
pub data HasWeight : Bytes → ℕ → Type 0 where
  high : HasWeight (codes "high") 3
  medium : HasWeight (codes "medium") 2
  other : {s : Bytes} → s ≢ codes "high" → s ≢ codes "medium" → HasWeight s 1

-- A group may stand in front of another: its severity weighs more; or as much, and it was counted
-- more often; or as often, and its path is not the later one.
pub data MayPrecede (g h : Group) : Type 0 where
  more_severe : {m n : ℕ} → HasWeight g.severity m → HasWeight h.severity n → n < m → MayPrecede g h
  more_frequent :
      {m : ℕ} → HasWeight g.severity m → HasWeight h.severity m → h.count < g.count → MayPrecede g h
  earlier_path :
      {m : ℕ}
      → HasWeight g.severity m
      → HasWeight h.severity m
      → g.count ≡ h.count
      → bytes_lt h.path g.path ≡ false
      → MayPrecede g h

-- Every group may precede every later one.
abbrev pub IsRanked : List Group → Type 0
IsRanked [] = Unit
IsRanked (g ∷ gs) = All (MayPrecede g) gs × IsRanked gs

rank-HasWeight : (s : Bytes) → HasWeight s (rank s)
unfolding rank bytes_beq
rank-HasWeight s = elim (Bool-cases (s == codes "high")) [
  | inl e ↦ rw ((bytes_beq_iff s (codes "high")).0 e) high
  | inr e ↦ elim (Bool-cases (s == codes "medium")) [
    | inl f ↦ rw ((bytes_beq_iff s (codes "medium")).0 f) medium
    | inr f ↦
        rw (e, f)
          (other (λ q. ground (arith, bytes_beq_iff s (codes "high")))
            (λ q. ground (arith, bytes_beq_iff s (codes "medium"))))
  ]
]

not_before :
    (g h : Group)
    → before h g ≡ false
    → (rank h.severity < rank g.severity)
      ⊎ ((rank g.severity ≡ rank h.severity) × (h.count < g.count))
      ⊎ ((rank g.severity ≡ rank h.severity)
          × (g.count ≡ h.count)
          × (bytes_lt h.path g.path ≡ false))
unfolding before
not_before g h e = ground arith

before-MayPrecede : (g h : Group) → before h g ≡ false → MayPrecede g h
before-MayPrecede g h e = elim (not_before g h e) [
  | inl less ↦ more_severe (rank-HasWeight g.severity) (rank-HasWeight h.severity) less
  | inr (inl (same, less)) ↦
      more_frequent (rank-HasWeight g.severity) (rw same (rank-HasWeight h.severity)) less
  | inr (inr (same, equal, path)) ↦
      earlier_path (rank-HasWeight g.severity) (rw same (rank-HasWeight h.severity)) equal path
]

IsSorted-IsRanked : (gs : List Group) → IsSorted before gs → IsRanked gs
IsSorted-IsRanked [] h = tt
IsSorted-IsRanked (g ∷ gs) h =
    (All-map _ _ gs (λ x e. before-MayPrecede g x e) h.0, IsSorted-IsRanked gs h.1)

before_asym : (g h : Group) → before g h ≡ true → before h g ≡ false
unfolding before
before_asym g h e = ground (arith, bytes_lt_asym g.path h.path)

before_back : (f g h : Group) → before g f ≡ false → before h g ≡ false → before h f ≡ false
unfolding before
before_back f g h e e' = ground (arith, bytes_lt_back f.path g.path h.path)

-- While no more pairs are identical than there are, the summary ranks the groups, each in front of
-- every later one: those of a severity that weighs more stand first, high before medium before any
-- other; within one weight those with the greater count; and with one count none stands in front of a
-- group whose path comes before its own. Every group of the report is in it once, with its rate; and
-- the divergent and the identical pairs make up the pairs.
pub summary-IsRanked :
    (now : Time) (a : Aggregator)
    → a.identical ≤ a.pairs
    → IsRanked (summary now a).groups
      × Perm (summary now a).groups (map (λ e. with_rate a.pairs e.1) a.groups)
      × ((summary now a).divergent + (summary now a).identical ≡ (summary now a).pairs)
unfolding summary
summary-IsRanked now a h = (
  IsSorted-IsRanked _ (sort-IsSorted before before_asym before_back _),
  sort-perm before _,
  omega arith,
)
