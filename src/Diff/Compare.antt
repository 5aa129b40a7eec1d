-- ===== src/Diff/Compare.antt =====
-- internal/diff/diff.go: `diffBodies` and `Diff`.
use dark_canary.Prelude.{
  ℕ, Bool, true, false, Option, none, some, [], Bytes, codes, nat_eq, bytes_eq, ◌==◌, if◌then◌else◌,
  length, trim_space,
}
use dark_canary.Collector.Types.{Pair}
use dark_canary.Diff.Value.{Value, int, string}
use dark_canary.Diff.Runtime.{Runtime}
use dark_canary.Diff.Engine.{Result, Engine, status, body_val, shape, path_status, path_body, add}
use dark_canary.Diff.Walk.{walk}
use dark_canary.Diff.Headers.{diff_headers}

unfoldable pub jsonness : Bool → Value
jsonness ok = if ok then string (codes "valid JSON") else string (codes "not JSON")

-- The `Result` that the sink starts with.
unfoldable pub empty_result : Pair → Result
empty_result p = record {
  correl_id = p.correl_id;
  method = p.primary.method;
  url = p.primary.url;
  differences = [];
  suppressed = 0;
}

module _ (rt : Runtime) where
  unfoldable pub decode_json : Bytes → Option Value
  decode_json body =
      let trimmed = trim_space body in if length trimmed == 0 then none else rt.decode trimmed

  module _ (e : Engine) where
    unfoldable pub diff_status : ℕ → ℕ → Result → Result
    diff_status a b r = if a == b then r else add rt e status path_status (int a) (int b) r

    -- `diffBodies`, by what the two bodies decode to.
    unfoldable pub diff_decoded : Option Value → Option Value → Bytes → Bytes → Result → Result
    diff_decoded (some a) (some b) p s r = walk rt e path_body a b r
    diff_decoded (some a) none p s r = add rt e shape path_body (jsonness true) (jsonness false) r
    diff_decoded none (some b) p s r = add rt e shape path_body (jsonness false) (jsonness true) r
    diff_decoded none none p s r =
        if p == s then r else add rt e body_val path_body (string p) (string s) r

    unfoldable pub diff_bodies : Bytes → Bytes → Result → Result
    unfolding diff_decoded decode_json
    diff_bodies p s r = diff_decoded (decode_json p) (decode_json s) p s r

    -- `Diff`
    unfoldable pub diff : Pair → Result
    unfolding diff_status diff_headers diff_bodies empty_result
    diff p =
        let checked = diff_status p.primary.status p.shadow.status (empty_result p) in
        let headed = diff_headers rt e p.primary.res_headers p.shadow.res_headers checked in
        diff_bodies p.primary.res_body p.shadow.res_body headed
