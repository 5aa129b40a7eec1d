-- ===== src/Diff/Apart/Responses.antt =====
-- internal/diff/diff.go: the paths of all the differences that `Diff` finds.
use dark_canary.Prelude.{
  ℕ, ◌≡◌, refl, sym, ap, ◌∙◌, ◌⊎◌, inl, inr, true, false, not, Option, none, some, List, [], ◌∷◌,
  ◌++◌, arith, Bytes, codes, nat_eq, bytes_eq, bytes_lt, bytes_beq_iff, ◌==◌, keys, keep, contains,
  Distinct, Distinct-snoc, Distinct-keep, Distinct-sort, to_lower, Bool-cases, length, trim_space,
}
use mathlib.Core.Path.{subst}
use dark_canary.Collector.Types.{Headers, Pair}
use dark_canary.Diff.Value.{Value, int, string}
use dark_canary.Diff.Runtime.{Runtime}
use dark_canary.Diff.Engine.{
  Engine, status, header, body_val, shape, path_status, path_headers, path_body,
}
use dark_canary.Diff.Headers.{
  is_transport, add_names, header_names, header_value, diff_header, diff_names, diff_headers,
}
use dark_canary.Diff.Compare.{
  jsonness, empty_result, decode_json, diff_status, diff_decoded, diff_bodies, diff,
}
use dark_canary.Diff.Apart.Paths.{Under, child_path, Under-self, cancel}
use dark_canary.Diff.Apart.Growth.{Apart, Grows, Grows-none, Grows-then, added-Grows}
use dark_canary.Diff.Apart.Keys.{HasKeys}
use dark_canary.Diff.Apart.Walk.{walk-Grows}

-- The decoder makes maps of objects, in which no key stands twice.
abbrev pub DecodesMaps : Runtime → Type 0
DecodesMaps rt = (b : Bytes) (v : Value) → rt.decode b ≡ some v → HasKeys v

add_names-Distinct : (ks names : List Bytes) → Distinct names → Distinct (add_names ks names)
unfolding add_names
add_names-Distinct [] names d = d
add_names-Distinct (k ∷ ks) names d = elim (Bool-cases (contains (to_lower k) names)) [
  | inl known ↦ rw known (add_names-Distinct ks names d)
  | inr fresh ↦
      rw fresh (
        add_names-Distinct ks (names ++ to_lower k ∷ []) (Distinct-snoc names (to_lower k) d fresh))
]

header_names-Distinct : (p s : Headers) → Distinct (header_names p s)
unfolding header_names
header_names-Distinct p s =
    let met = add_names (keys s) (add_names (keys p) []) in
    Distinct-sort bytes_lt (keep (λ n. not (is_transport n)) met) (
      Distinct-keep (λ n. not (is_transport n)) met
        (add_names-Distinct (keys s) (add_names (keys p) []) (add_names-Distinct (keys p) [] tt)))

-- The path of one of the headers.
abbrev HeaderOf : List Bytes → Bytes → Type 0
HeaderOf ns q = (n : Bytes) × (contains n ns ≡ true) × (q ≡ child_path path_headers n)

second_byte : Bytes → ℕ
second_byte (_ ∷ c ∷ _) = c
second_byte _ = 0

module _ (rt : Runtime) (e : Engine) where
  status-Grows : (a b : ℕ) → Grows (λ q. q ≡ path_status) (diff_status rt e a b)
  unfolding diff_status
  status-Grows a b r = elim (Bool-cases (a == b)) [
    | inl same ↦ rw same (Grows-none (λ q. q ≡ path_status) r)
    | inr other ↦
        rw other (added-Grows rt e (λ q. q ≡ path_status) status path_status (int a) (int b) refl r)
  ]

  header-Grows :
      (p s : Headers) (n : Bytes)
      → Grows (λ q. q ≡ child_path path_headers n) (diff_header rt e p s n)
  unfolding diff_header
  header-Grows p s n r = elim (Bool-cases (header_value p n == header_value s n)) [
    | inl same ↦ rw same (Grows-none (λ q. q ≡ child_path path_headers n) r)
    | inr other ↦ rw other (
        added-Grows rt e (λ q. q ≡ child_path path_headers n) header (child_path path_headers n)
          (string (header_value p n)) (string (header_value s n)) refl r)
  ]

  no_header_twice :
      (n : Bytes) (ns : List Bytes)
      → contains n ns ≡ false
      → (q : Bytes) → q ≡ child_path path_headers n
      → HeaderOf ns q
      → ⊥
  no_header_twice n ns fresh q here (m, there, e') =
      let same : n ≡ m = cancel (path_headers ++ codes "/") (sym here ∙ e') in
      absurd (ground (arith, fresh, there, ap (λ i. contains i ns) same))

  names-Grows :
      (p s : Headers) (ns : List Bytes) → Distinct ns → Grows (HeaderOf ns) (diff_names rt e p s ns)
  unfolding diff_names contains
  names-Grows p s [] d r = Grows-none (HeaderOf []) r
  names-Grows p s (n ∷ ns) d r =
      Grows-then (λ q. q ≡ child_path path_headers n) (HeaderOf ns) (HeaderOf (n ∷ ns))
        (diff_header rt e p s n) (diff_names rt e p s ns) (no_header_twice n ns d.0)
        (λ q here. (n, ground (arith, bytes_beq_iff n n), here))
        (λ q below. (below.0, ground (arith, below.1), below.2)) (header-Grows p s n)
        (names-Grows p s ns d.1) r

  decoded-Grows :
      (a b : Option Value) (p s : Bytes)
      → ((v : Value) → a ≡ some v → HasKeys v)
      → ((v : Value) → b ≡ some v → HasKeys v)
      → Grows (Under path_body) (diff_decoded rt e a b p s)
  unfolding diff_decoded
  decoded-Grows (some a) (some b) p s ha hb r =
      walk-Grows rt e path_body a b (ha a refl) (hb b refl) r
  decoded-Grows (some a) none p s ha hb r =
      added-Grows rt e (Under path_body) shape path_body (jsonness true) (jsonness false)
        (Under-self path_body refl) r
  decoded-Grows none (some b) p s ha hb r =
      added-Grows rt e (Under path_body) shape path_body (jsonness false) (jsonness true)
        (Under-self path_body refl) r
  decoded-Grows none none p s ha hb r = elim (Bool-cases (p == s)) [
    | inl same ↦ rw same (Grows-none (Under path_body) r)
    | inr other ↦ rw other (
        added-Grows rt e (Under path_body) body_val path_body (string p) (string s)
          (Under-self path_body refl) r)
  ]

  decode_json-HasKeys :
      (b : Bytes) → DecodesMaps rt → (v : Value) → decode_json rt b ≡ some v → HasKeys v
  unfolding decode_json
  decode_json-HasKeys b maps v h = elim (Bool-cases (length (trim_space b) == 0)) [
    | inl blank ↦ absurd (ground arith)
    | inr some_text ↦ maps (trim_space b) v (ground arith)
  ]

  -- The status or one of the headers.
  abbrev HeadOf : List Bytes → Bytes → Type 0
  HeadOf ns q = (q ≡ path_status) ⊎ HeaderOf ns q

  head_not_body : (ns : List Bytes) (q : Bytes) → HeadOf ns q → Under path_body q → ⊥
  unfolding second_byte
  head_not_body ns q (inl here) (s, there, _) =
      absurd (omega (arith, ap second_byte here, ap second_byte there))
  head_not_body ns q (inr (n, _, here)) (s, there, _) =
      absurd (omega (arith, ap second_byte here, ap second_byte there))

  status_no_header : (ns : List Bytes) (q : Bytes) → q ≡ path_status → HeaderOf ns q → ⊥
  unfolding second_byte
  status_no_header ns q here (n, _, there) =
      absurd (omega (arith, ap second_byte here, ap second_byte there))

  -- Where the decoder makes maps of objects: no two differences that `Diff` finds between the responses
  -- of a pair are at one path, whatever the rules are.
  pub diff-Apart : (p : Pair) → DecodesMaps rt → Apart (diff rt e p).differences
  unfolding diff diff_headers diff_bodies empty_result
  diff-Apart p maps =
      let a = p.primary in
      let b = p.shadow in
      let ns = header_names a.res_headers b.res_headers in
      let (ds, same, _, apart) =
        Grows-then (HeadOf ns) (Under path_body) (λ q. Unit)
          (λ r.
            diff_names rt e a.res_headers b.res_headers ns (diff_status rt e a.status b.status r))
          (diff_decoded rt e (decode_json rt a.res_body) (decode_json rt b.res_body) a.res_body
            b.res_body)
          (head_not_body ns) (λ q _. tt) (λ q _. tt)
          (Grows-then (λ q. q ≡ path_status) (HeaderOf ns) (HeadOf ns)
            (diff_status rt e a.status b.status) (diff_names rt e a.res_headers b.res_headers ns)
            (status_no_header ns) (λ q h. inl h) (λ q h. inr h) (status-Grows a.status b.status)
            (names-Grows a.res_headers b.res_headers ns
              (header_names-Distinct a.res_headers b.res_headers)))
          (decoded-Grows (decode_json rt a.res_body) (decode_json rt b.res_body) a.res_body
            b.res_body (decode_json-HasKeys a.res_body maps) (decode_json-HasKeys b.res_body maps))
          (empty_result p) in
      subst Apart (sym same) apart
