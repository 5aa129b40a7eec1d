-- ===== src/Examples/Report.antt =====
-- Two results: one pair that differs in its status, and one that is identical.
use mathlib.Core.List.{Perm}
use dark_canary.Prelude.{◌+◌, ◌≤◌, ◌≡◌, List, [], ◌∷◌, codes, length, map, arith}
use dark_canary.Collector.Types.{Time}
use dark_canary.Diff.Engine.{status, Result, is_identical}
use dark_canary.Report.Aggregator.{new, add, with_rate, summary}
use dark_canary.Report.Counts.{
  counted, add_all, total_occurrences, identical_results, total_suppressed, add_all-counts,
}
use dark_canary.Report.Ranking.{IsRanked, summary-IsRanked}

abbrev differing : Result
differing = record {
  correl_id = codes "a";
  method = codes "GET";
  url = codes "/orders";
  differences =
      record { kind = status; path = codes "/status"; primary = codes "200"; shadow = codes "500" }
      ∷ [];
  suppressed = 2;
}

abbrev same : Result
same = record differing { differences = [] }

abbrev results : List (Time × Result)
results = (7, differing) ∷ (9, same) ∷ []

add_all-counts_example :
    (counted status (codes "/status") (add_all results (new 5)).groups
      ≡ counted status (codes "/status") (new 5).groups
        + total_occurrences status (codes "/status") results)
    × ((add_all results (new 5)).pairs ≡ (new 5).pairs + length results)
    × ((add_all results (new 5)).identical ≡ (new 5).identical + identical_results results)
    × ((add_all results (new 5)).suppressed ≡ (new 5).suppressed + total_suppressed results)
add_all-counts_example = add_all-counts results (new 5) status (codes "/status")

one_identical : (add_all results (new 5)).identical ≤ (add_all results (new 5)).pairs
unfolding add_all add new is_identical
one_identical = omega arith

summary-IsRanked_example :
    IsRanked (summary 10 (add_all results (new 5))).groups
    × Perm
        (summary 10 (add_all results (new 5))).groups
        (map (λ e. with_rate (add_all results (new 5)).pairs e.1) (add_all results (new 5)).groups)
    × ((summary 10 (add_all results (new 5))).divergent
          + (summary 10 (add_all results (new 5))).identical
        ≡ (summary 10 (add_all results (new 5))).pairs)
summary-IsRanked_example = summary-IsRanked 10 (add_all results (new 5)) one_identical
