-- ===== src/Diff/Same.antt =====
-- internal/diff/diff.go: comparisons of a response with itself, under any rules.
use dark_canary.Prelude.{
  ℕ, ◌≡◌, refl, sym, ap, ◌∙◌, inl, inr, true, Option, none, some, List, [], ◌∷◌, arith, Bytes,
  nat_eq, bytes_eq, bytes_beq_refl, ◌==◌, length, Bool-cases, trim_space,
}
use dark_canary.Collector.Types.{Headers, Pair}
use dark_canary.Diff.Value.{Value}
use dark_canary.Diff.Runtime.{Runtime}
use dark_canary.Diff.Engine.{Engine, is_identical, path_body}
use dark_canary.Diff.Headers.{header_names, header_value, diff_header, diff_names, diff_headers}
use dark_canary.Diff.Compare.{
  empty_result, decode_json, diff_status, diff_decoded, diff_bodies, diff,
}
use dark_canary.Diff.Quiet.{IsQuiet, NumbersHold, DecodesNumbers, walk-IsQuiet}

module _ (rt : Runtime) (e : Engine) where
  header-IsQuiet : (h : Headers) (n : Bytes) → IsQuiet (diff_header rt e h h n)
  unfolding diff_header
  header-IsQuiet h n r = rw (bytes_beq_refl (header_value h n)) refl

  names-IsQuiet : (h : Headers) (ns : List Bytes) → IsQuiet (diff_names rt e h h ns)
  unfolding diff_names
  names-IsQuiet h [] r = refl
  names-IsQuiet h (n ∷ ns) r = names-IsQuiet h ns (diff_header rt e h h n r) ∙ header-IsQuiet h n r

  decoded-IsQuiet :
      (v : Option Value) (b : Bytes)
      → ((w : Value) → v ≡ some w → NumbersHold rt w)
      → IsQuiet (diff_decoded rt e v v b b)
  unfolding diff_decoded
  decoded-IsQuiet (some v) b h r = walk-IsQuiet rt e path_body v (h v refl) r
  decoded-IsQuiet none b h r = rw (bytes_beq_refl b) refl

  status-IsQuiet : (a : ℕ) → IsQuiet (diff_status rt e a a)
  unfolding diff_status
  status-IsQuiet a r = let same : (a == a) ≡ true = ground arith in rw same refl

  decoded-NumbersHold :
      (b : Bytes) → DecodesNumbers rt → (w : Value) → decode_json rt b ≡ some w → NumbersHold rt w
  unfolding decode_json
  decoded-NumbersHold b numbers w h = elim (Bool-cases (length (trim_space b) == 0)) [
    | inl blank ↦ absurd (ground arith)
    | inr some_text ↦ numbers (trim_space b) w (ground arith)
  ]

  -- A capture beside one with the same response.
  none_found_same :
      (p : Pair)
      → DecodesNumbers rt
      → p.primary.status ≡ p.shadow.status
      → p.primary.res_headers ≡ p.shadow.res_headers
      → p.primary.res_body ≡ p.shadow.res_body
      → (diff rt e p).differences ≡ []
  unfolding diff diff_headers diff_bodies empty_result
  none_found_same p numbers status headers body =
      rw (sym status, sym headers, sym body)
        (decoded-IsQuiet (decode_json rt p.primary.res_body) p.primary.res_body
            (decoded-NumbersHold p.primary.res_body numbers) _
          ∙ names-IsQuiet p.primary.res_headers
              (header_names p.primary.res_headers p.primary.res_headers) _
          ∙ status-IsQuiet p.primary.status (empty_result p))

  -- Where the decoder reads no NaN: two responses with one status, the same headers and the same body
  -- are identical for `Diff`, whatever the rules are.
  pub diff_same :
      (p : Pair)
      → DecodesNumbers rt
      → p.primary.status ≡ p.shadow.status
      → p.primary.res_headers ≡ p.shadow.res_headers
      → p.primary.res_body ≡ p.shadow.res_body
      → is_identical (diff rt e p) ≡ true
  unfolding is_identical
  diff_same p numbers status headers body =
      let none_found = none_found_same p numbers status headers body in
      ground (arith, ap length none_found)
