-- ===== src/Noise/Rules.antt =====
-- internal/noise/noise.go: rules, rulesets, `Default`, `Merge` and `Match`.
use dark_canary.Prelude.{
  Bool, true, Option, none, some, List, [], ◌∷◌, ◌++◌, Bytes, codes, if◌then◌else◌,
}
use dark_canary.Noise.Glob.{match_glob}

pub record Rule : Type 0 where
  pub path : Bytes
  pub ignore : Bool
  pub normalise : Bytes
  pub reason : Bytes

abbrev pub Ruleset : Type 0
Ruleset = List Rule

abbrev ignoring : Bytes → Bytes → Rule
ignoring path reason = record { path = path; ignore = true; normalise = []; reason = reason }

-- `Default`
abbrev pub default_rules : Ruleset
default_rules =
    ignoring (codes "/headers/date") (codes "clock, not behaviour")
    ∷ ignoring (codes "/headers/server") (codes "identifies the build, not the response")
    ∷ ignoring (codes "/headers/x-request-id") (codes "unique per request by design")
    ∷ ignoring (codes "/headers/x-dark-canary-id") (codes "our own correlation header")
    ∷ ignoring (codes "/headers/set-cookie") (codes "session ids differ by construction")
    ∷ ignoring (codes "/headers/age") (codes "cache age, not content")
    ∷ ignoring (codes "/headers/etag") (codes "derived from bytes we compare directly")
    ∷ []

-- `Merge`
unfoldable pub merge : Ruleset → Ruleset → Ruleset
merge rs other = rs ++ other

-- The loop of `Match`: the rule found so far, replaced by each later one that matches.
unfoldable pub match_from : Option Rule → Ruleset → Bytes → Option Rule
match_from found [] path = found
match_from found (r ∷ rs) path =
    match_from (if match_glob r.path path then some r else found) rs path

unfoldable pub match_rule : Ruleset → Bytes → Option Rule
unfolding match_from
match_rule rs path = match_from none rs path
