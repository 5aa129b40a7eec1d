-- ===== src/Diff/Agreement/Responses.antt =====
-- internal/diff/diff.go: `Diff` without rules, and pairs that agree.
use dark_canary.Prelude.{
  ◌≡◌, false, Option, none, some, List, [], Bytes, nat_eq, bytes_eq, keys, All, to_lower,
}
use dark_canary.Collector.Types.{Headers, Pair}
use dark_canary.Diff.Value.{Value}
use dark_canary.Diff.Runtime.{Runtime}
use dark_canary.Diff.Engine.{Result, Engine, status}
use dark_canary.Diff.Headers.{is_transport, add_names, header_value, diff_headers}
use dark_canary.Diff.Compare.{decode_json, diff_status, diff_bodies}
use dark_canary.Diff.Suppression.{without_rules}
use dark_canary.Diff.Agreement.Relation.{Agree}
use dark_canary.Diff.Agreement.Fields.{HeadersAgree}

-- Both bodies are JSON and agree as values, or neither is and they are the same bytes.
abbrev pub DecodedAgree : Runtime → Option Value → Option Value → Bytes → Bytes → Type 0
DecodedAgree rt none none p s = p ≡ s
DecodedAgree rt none (some b) p s = ⊥
DecodedAgree rt (some a) none p s = ⊥
DecodedAgree rt (some a) (some b) p s = Agree rt a b

abbrev pub PairAgrees : Runtime → Pair → Type 0
PairAgrees rt p =
    (p.primary.status ≡ p.shadow.status)
    × HeadersAgree p.primary.res_headers p.shadow.res_headers
    × DecodedAgree rt (decode_json rt p.primary.res_body) (decode_json rt p.shadow.res_body)
        p.primary.res_body p.shadow.res_body

abbrev AllLowered : List Bytes → Type 0
AllLowered = All (λ n. to_lower n ≡ n)

module _ (p s : Headers) where
  abbrev all_names : List Bytes
  all_names = add_names (keys s) (add_names (keys p) [])

  AgreesAt : Bytes → Type 0
  AgreesAt n = header_value p n ≡ header_value s n

  ValuesAgree : Type 0
  ValuesAgree = (n : Bytes) → to_lower n ≡ n → is_transport n ≡ false → AgreesAt n

module _ (rt : Runtime) (rules : Engine) where
  abbrev e : Engine
  e = without_rules rules

  -- The three parts of `Diff`, one behind the other.
  diff_parts : Pair → Result → Result
  diff_parts p r = diff_bodies rt e p.primary.res_body p.shadow.res_body (
      diff_headers rt e p.primary.res_headers p.shadow.res_headers
        (diff_status rt e p.primary.status p.shadow.status r))
