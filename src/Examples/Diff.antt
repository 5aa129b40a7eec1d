-- ===== src/Examples/Diff.antt =====
-- A pair whose bodies differ in the order of the keys, and in how a number is written.
use dark_canary.Prelude.{
  ◌≡◌, ◌↔◌, refl, some, [], ◌∷◌, Bytes, codes, bytes_beq, lookup, contains, sort, trim_space,
  bytes_lt, ◌==◌, bytes_eq, to_lower, equal_fold, join, false, nat_eq,
}
use dark_canary.Collector.Types.{Capture, Pair, path_primary, path_shadow, Headers}
use dark_canary.Diff.Value.{type_name, entries, length_items}
use dark_canary.Diff.Engine.{Engine, suppressed, path_body}
use dark_canary.Diff.Compare.{diff, empty_result}
use dark_canary.Diff.Walk.{walk, scalar_equal, visit_all, sorted_keys, visit}
use dark_canary.Diff.Suppression.{without_rules, diff-suppressed_zero}
use dark_canary.Diff.Text.{escape_token}
use dark_canary.Diff.Escaping.{unescape, escape_token-reads_back}
use dark_canary.Diff.Agreement.Relation.{Agree}
use dark_canary.Diff.Agreement.Bodies.{walk-agrees_iff}
use dark_canary.Diff.Headers.{header_names, header_value}
use dark_canary.Noise.Normalise.{digits_value}
use dark_canary.Examples.Runtime.{small_runtime, decode_some, a_then_b, b_then_a}

abbrev answer : Bytes → Bytes → Headers → Capture
answer path body headers = record {
  path = path;
  correl_id = codes "a";
  method = codes "GET";
  url = codes "/orders";
  req_headers = [];
  req_body = [];
  status = 200;
  res_headers = headers;
  res_body = body;
  latency = 3;
  at = 5;
}

abbrev pub reordered : Pair
reordered = record {
  correl_id = codes "a";
  primary = answer path_primary (codes "{a,b}") ((codes "Date", codes "1" ∷ []) ∷ []);
  shadow = answer path_shadow (codes "{b,a}") ((codes "date", codes "1" ∷ []) ∷ []);
}

abbrev pub engine : Engine
engine = record { suppressor = some (λ path a b. path == codes "/headers/etag"); max_value = 200 }

nothing_suppressed : (diff small_runtime engine reordered).suppressed ≡ 0
unfolding diff trim_space decode_some bytes_beq walk type_name visit_all sorted_keys sort entries
    contains bytes_lt visit lookup suppressed scalar_equal digits_value length_items header_names
    to_lower header_value equal_fold join
nothing_suppressed = refl

diff-suppressed_zero_example :
    diff small_runtime engine reordered ≡ diff small_runtime (without_rules engine) reordered
diff-suppressed_zero_example =
    diff-suppressed_zero small_runtime engine reordered nothing_suppressed

walk-agrees_iff_example :
    (walk small_runtime (without_rules engine) path_body a_then_b b_then_a (empty_result reordered)
      ≡ empty_result reordered)
    ↔ Agree small_runtime a_then_b b_then_a
walk-agrees_iff_example =
    walk-agrees_iff small_runtime engine path_body a_then_b b_then_a (empty_result reordered)

escape_token-reads_back_example :
    (unescape (escape_token (codes "a/b~c")) ≡ codes "a/b~c")
    × (contains ⦃e = nat_eq⦄ b'/' (escape_token (codes "a/b~c")) ≡ false)
escape_token-reads_back_example = escape_token-reads_back (codes "a/b~c")
