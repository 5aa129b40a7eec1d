-- ===== src/Report/Aggregator.antt =====
-- internal/report/report.go: severities, groups, `Aggregator.Add` and `Aggregator.Summary`. A rate is
-- the fraction of two counts whose quotient the source rounds to a float.
use dark_canary.Prelude.{
  ℕ, ◌+◌, ◌-◌, Bool, not, none, some, List, [], ◌∷◌, ◌++◌, Bytes, codes, nat_eq, bytes_eq, ◌==◌,
  if◌then◌else◌, ltb, map, lookup, insert, bytes_lt, sort,
}
use dark_canary.Collector.Types.{Time}
use dark_canary.Diff.Engine.{
  Kind, status, header, body_val, body_key, shape, Difference, Result, is_identical,
}

pub data Severity : Type 0 where
  low medium high : Severity

-- `Severity.String`
unfoldable pub severity_text : Severity → Bytes
severity_text high = codes "high"
severity_text medium = codes "medium"
severity_text low = codes "low"

unfoldable pub severity_of : Kind → Severity
severity_of status = high
severity_of shape = medium
severity_of body_key = medium
severity_of header = low
severity_of body_val = low

-- The text that a kind is.
unfoldable pub kind_text : Kind → Bytes
kind_text status = codes "status"
kind_text header = codes "header"
kind_text body_val = codes "body_value"
kind_text body_key = codes "body_key"
kind_text shape = codes "shape"

pub record Example : Type 0 where
  pub correl_id : Bytes
  pub method : Bytes
  pub url : Bytes
  pub primary : Bytes
  pub shadow : Bytes

pub record Group : Type 0 where
  pub kind : Kind
  pub path : Bytes
  pub count : ℕ
  pub severity : Bytes
  pub rate : ℕ × ℕ
  pub example : Example
  pub first_at : Time
  pub last_at : Time

pub record Summary : Type 0 where
  pub pairs : ℕ
  pub identical : ℕ
  pub divergent : ℕ
  pub suppressed : ℕ
  pub groups : List Group
  pub since : Time
  pub now : Time

pub record Aggregator : Type 0 where
  pub groups : List (Bytes × Group)
  pub pairs : ℕ
  pub identical : ℕ
  pub suppressed : ℕ
  pub since : Time

-- `New`, at the time that its clock shows.
unfoldable pub new : Time → Aggregator
new now = record { groups = []; pairs = 0; identical = 0; suppressed = 0; since = now }

-- The key of a finding: its kind and its path.
unfoldable pub group_key : Kind → Bytes → Bytes
unfolding kind_text
group_key k path = kind_text k ++ codes " " ++ path

-- A group that has not been counted yet.
unfoldable pub new_group : Time → Result → Difference → Group
unfolding severity_text severity_of
new_group now r d = record {
  kind = d.kind;
  path = d.path;
  count = 0;
  severity = severity_text (severity_of d.kind);
  rate = (0, 1);
  example = record {
    correl_id = r.correl_id;
    method = r.method;
    url = r.url;
    primary = d.primary;
    shadow = d.shadow;
  };
  first_at = now;
  last_at = 0;
}

abbrev pub seen_again : Time → Group → Group
seen_again now g = record g { count = g.count + 1; last_at = now }

-- One round of the loop of `Add`.
unfoldable pub add_difference :
    Time → Result → Difference → List (Bytes × Group) → List (Bytes × Group)
unfolding group_key new_group
add_difference now r d groups =
    let key = group_key d.kind d.path in
    elim (lookup key groups) [
      | none ↦ insert key (seen_again now (new_group now r d)) groups
      | some g ↦ insert key (seen_again now g) groups
    ]

unfoldable pub add_differences :
    Time → Result → List Difference → List (Bytes × Group) → List (Bytes × Group)
unfolding add_difference
add_differences now r [] groups = groups
add_differences now r (d ∷ ds) groups = add_differences now r ds (add_difference now r d groups)

-- `Add`
unfoldable pub add : Time → Result → Aggregator → Aggregator
unfolding add_differences is_identical
add now r a =
    let seen : Aggregator = record a {
      pairs = a.pairs + 1;
      suppressed = a.suppressed + r.suppressed;
    } in
    if is_identical r
    then record seen { identical = seen.identical + 1 }
    else record seen { groups = add_differences now r r.differences seen.groups }

unfoldable pub rank : Bytes → ℕ
rank s = if s == codes "high" then 3 else if s == codes "medium" then 2 else 1

-- The order of `Summary`: severity first, then count, then path.
unfoldable pub before : Group → Group → Bool
unfolding rank
before g h =
    if not (rank g.severity == rank h.severity)
    then ltb (rank h.severity) (rank g.severity)
    else if not (g.count == h.count)
    then ltb h.count g.count
    else bytes_lt g.path h.path

abbrev pub with_rate : ℕ → Group → Group
with_rate pairs g = if ltb 0 pairs then record g { rate = (g.count, pairs) } else g

-- `Summary`; the map is walked in the order of the list.
unfoldable pub summary : Time → Aggregator → Summary
unfolding before
summary now a = record {
  pairs = a.pairs;
  identical = a.identical;
  divergent = a.pairs - a.identical;
  suppressed = a.suppressed;
  groups = sort before (map (λ e. with_rate a.pairs e.1) a.groups);
  since = a.since;
  now = now;
}
