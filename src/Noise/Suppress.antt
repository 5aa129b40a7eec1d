-- ===== src/Noise/Suppress.antt =====
-- internal/noise/noise.go: `Suppress`, which the engine asks, `Apply`, which filters a finished
-- result, and `Load`.
use dark_canary.Prelude.{
  ℕ, ◌+◌, Bool, true, false, not, ◌&&◌, ◌||◌, Option, none, some, List, [], ◌∷◌, ◌++◌, Bytes, codes,
  bytes_eq, ◌==◌, if◌then◌else◌,
}
use dark_canary.Diff.Value.{Value, number, string}
use dark_canary.Diff.Runtime.{Runtime}
use dark_canary.Diff.Engine.{Difference, Result}
use dark_canary.Noise.Rules.{Rule, Ruleset, match_rule}
use dark_canary.Noise.Normalise.{parse_normalise, equal, compare}

module _ (rt : Runtime) where
  -- What one rule says of two values.
  unfoldable pub suppressed_by : Rule → Value → Value → Bool
  suppressed_by rule primary shadow =
      if rule.ignore
      then true
      else let (already, normalised) = compare rt rule.normalise primary shadow in
        not already && normalised

  unfoldable pub suppress : Ruleset → Bytes → Value → Value → Bool
  unfolding suppressed_by
  suppress rs path primary shadow = elim (match_rule rs path) [
    | none ↦ false
    | some rule ↦ suppressed_by rule primary shadow
  ]

  unfoldable pub suppress_rendered : Bytes → Bytes → Bytes → Bool
  suppress_rendered spec a b = if spec == [] || a == b then false else elim (parse_normalise spec) [
    | none ↦ false
    | some n ↦
        if n.kind == codes "round"
        then equal rt n (number a) (number b)
        else equal rt n (string a) (string b)
  ]

  -- The condition of the loop of `Apply`.
  unfoldable pub is_noise : Ruleset → Difference → Bool
  is_noise rs d = elim (match_rule rs d.path) [
    | none ↦ false
    | some rule ↦ rule.ignore || suppress_rendered rule.normalise d.primary d.shadow
  ]

  unfoldable pub apply_loop : Ruleset → List Difference → Result → Result
  apply_loop rs [] out = out
  apply_loop rs (d ∷ ds) out = apply_loop rs ds (
      if is_noise rs d
      then record out { suppressed = out.suppressed + 1 }
      else record out { differences = out.differences ++ d ∷ [] })

  unfoldable pub apply : Ruleset → Result → Result
  unfolding apply_loop
  apply rs r = apply_loop rs r.differences (record r { differences = [] })

pub data LoadError : Type 0 where
  unreadable malformed : LoadError
  no_path does_nothing bad_normalise : ℕ → LoadError

pub data Loaded : Type 0 where
  loaded : Ruleset → Loaded
  failed : LoadError → Loaded

-- The loop of `Load` over the rules, from the number of the first.
unfoldable pub check_rules : ℕ → Ruleset → Option LoadError
check_rules i [] = none
check_rules i (r ∷ rs) =
    let rest = check_rules (i + 1) rs in
    if r.path == []
    then some (no_path i)
    else if not r.ignore && r.normalise == []
    then some (does_nothing i)
    else if not (r.normalise == [])
    then elim (parse_normalise r.normalise) [ none ↦ some (bad_normalise i) | some n ↦ rest ]
    else rest

-- `Load`, over the reading of the file and the YAML library; `none` is an error of theirs.
unfoldable pub load : (Bytes → Option Bytes) → (Bytes → Option Ruleset) → Bytes → Loaded
unfolding check_rules
load read_file unmarshal path = elim (read_file path) [
  | none ↦ failed unreadable
  | some b ↦ elim (unmarshal b) [
    | none ↦ failed malformed
    | some rs ↦ elim (check_rules 0 rs) [ none ↦ loaded rs | some e ↦ failed e ]
  ]
]
