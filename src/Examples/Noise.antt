-- ===== src/Examples/Noise.antt =====
-- A ruleset that ignores the clock, sorts a list of tags and drops a subtree.
use mathlib.Core.List.{Perm}
use dark_canary.Prelude.{
  ◌≡◌, ◌≢◌, ◌↔◌, ◌⊎◌, refl, Bool, true, false, none, some, [], ◌∷◌, Bytes, codes, bytes_beq, All,
  to_lower, bytes_eq, sort, bytes_lt,
}
use dark_canary.Diff.Value.{number, nil, cons, list_items}
use dark_canary.Diff.Engine.{Result, header, body_val}
use dark_canary.Noise.Glob.{
  Matches, match_segments, match_glob, split, match_segments_lem, split_slashes, loop, retry,
  finish,
}
use dark_canary.Noise.Rules.{Rule, Ruleset, match_rule, match_from}
use dark_canary.Noise.Normalise.{Normaliser, compare, parse_normalise, canonical, equal}
use dark_canary.Noise.Suppress.{suppress, load, loaded}
use dark_canary.Noise.Matching.{NoneMatches, IsLastMatch, match_rule-last}
use dark_canary.Noise.Sorting.{texts_of, suppress-sort_iff}
use dark_canary.Noise.Validity.{IsUsable, load_iff}
use dark_canary.Noise.Contract.{suppress-differs}
use dark_canary.Examples.Runtime.{small_runtime, one_two, encode, two_one}

abbrev tags_rule : Rule
tags_rule = record {
  path = codes "/body/**/tags";
  ignore = false;
  normalise = codes "sort";
  reason = codes "a set";
}

abbrev debug_rule : Rule
debug_rule = record {
  path = codes "/body/debug";
  ignore = true;
  normalise = [];
  reason = codes "only for us";
}

abbrev operator_rules : Ruleset
operator_rules = tags_rule ∷ debug_rule ∷ []

abbrev tags_path : Bytes
tags_path = codes "/body/item/tags"

abbrev mixed : Result
mixed = record {
  correl_id = codes "a";
  method = codes "GET";
  url = codes "/orders";
  differences =
      record {
        kind = header;
        path = codes "/headers/date";
        primary = codes "1";
        shadow = codes "2";
      }
      ∷ record { kind = body_val; path = codes "/body/n"; primary = codes "1"; shadow = codes "2" }
      ∷ [];
  suppressed = 3;
}

match_segments_lem_example :
    (b : Bool) × (match_segments
        (codes "body" ∷ codes "**" ∷ codes "tags" ∷ [])
        (codes "body" ∷ codes "item" ∷ codes "tags" ∷ [])
      ≡ some b)
    × ((b ≡ true)
        ↔ Matches
            (codes "body" ∷ codes "**" ∷ codes "tags" ∷ [])
            (codes "body" ∷ codes "item" ∷ codes "tags" ∷ []))
match_segments_lem_example =
    match_segments_lem (codes "body" ∷ codes "**" ∷ codes "tags" ∷ [])
      (codes "body" ∷ codes "item" ∷ codes "tags" ∷ [])

match_rule-last_example :
    (NoneMatches operator_rules tags_path × (match_rule operator_rules tags_path ≡ none))
    ⊎ ((r : Rule) × (match_rule operator_rules tags_path ≡ some r)
        × IsLastMatch operator_rules tags_path r)
match_rule-last_example = match_rule-last operator_rules tags_path

tags_found : match_rule operator_rules tags_path ≡ some tags_rule
unfolding match_rule match_from match_glob match_segments split split_slashes loop retry finish
    to_lower bytes_beq
tags_found = refl

suppress-sort_iff_example :
    (suppress small_runtime operator_rules tags_path one_two two_one ≡ true) ↔ (
      (canonical small_runtime one_two ≢ canonical small_runtime two_one)
      × Perm
          (texts_of small_runtime (cons (number (codes "1")) (cons (number (codes "2")) nil)))
          (texts_of small_runtime (cons (number (codes "2")) (cons (number (codes "1")) nil))))
suppress-sort_iff_example =
    suppress-sort_iff small_runtime operator_rules tags_path tags_rule
      (cons (number (codes "1")) (cons (number (codes "2")) nil))
      (cons (number (codes "2")) (cons (number (codes "1")) nil)) tags_found refl refl

load_iff_example :
    (load (λ p. some p) (λ t. some operator_rules) (codes "rules.yaml") ≡ loaded operator_rules)
    ↔ All IsUsable operator_rules
load_iff_example =
    load_iff (λ p. some p) (λ t. some operator_rules) (codes "rules.yaml") (codes "rules.yaml")
      operator_rules refl refl

sort_suppresses : suppress small_runtime operator_rules tags_path one_two two_one ≡ true
unfolding suppress compare bytes_beq encode sort list_items bytes_lt
sort_suppresses = rw (tags_found, suppress) refl

suppress-differs_example :
    (canonical small_runtime one_two ≢ canonical small_runtime two_one)
    × ((n : Normaliser) × (parse_normalise (codes "sort") ≡ some n)
        × (equal small_runtime n one_two two_one ≡ true))
suppress-differs_example =
    suppress-differs small_runtime operator_rules tags_path tags_rule one_two two_one tags_found
      refl sort_suppresses
