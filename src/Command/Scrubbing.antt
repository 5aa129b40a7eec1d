-- ===== src/Command/Scrubbing.antt =====
-- cmd/dark-canary/config.go and internal/safety/safety.go: the header names that `-scrub` and the list
-- of credentials ask for, said without any split.
use dark_canary.Prelude.{
  ◌≡◌, ◌≢◌, refl, ◌⊎◌, inl, inr, Bool, true, false, ◌||◌, List, [], ◌∷◌, ◌++◌, arith, Bytes, codes,
  nat_eq, bytes_eq, bytes_beq, bytes_beq_iff, ◌==◌, contains, All, Bool-cases, to_lower, equal_fold,
  trim_space,
}
use dark_canary.Safety.Scrubber.{always_scrubbed, is_field, IsScrubbed}
use dark_canary.Command.Flags.{split_commas, keep_parts, split_list}

abbrev HasNoComma : Bytes → Type 0
HasNoComma = All (λ c. c ≢ b',')

-- A part of a text between its commas, or between one and an end.
pub data IsPart (w : Bytes) : Bytes → Type 0 where
  whole : HasNoComma w → IsPart w w
  front : (s : Bytes) → HasNoComma w → IsPart w (w ++ b',' ∷ s)
  behind : (v s : Bytes) → HasNoComma v → IsPart w s → IsPart w (v ++ b',' ∷ s)

-- A header that must not be kept: one of the five credentials, or one whose name is, case aside, a
-- part of the flag that is not blank, without the white space around it.
pub data IsSecret (scrub name : Bytes) : Type 0 where
  authorization : to_lower name ≡ codes "authorization" → IsSecret scrub name
  proxy_authorization : to_lower name ≡ codes "proxy-authorization" → IsSecret scrub name
  cookie : to_lower name ≡ codes "cookie" → IsSecret scrub name
  set_cookie : to_lower name ≡ codes "set-cookie" → IsSecret scrub name
  x_api_key : to_lower name ≡ codes "x-api-key" → IsSecret scrub name
  listed :
      (w : Bytes)
      → IsPart w scrub
      → trim_space w ≢ []
      → to_lower (trim_space w) ≡ to_lower name
      → IsSecret scrub name

-- A header is no secret, or it holds the mark of a redaction and nothing else.
abbrev pub KeepsSecret : Bytes → Bytes × List Bytes → Type 0
KeepsSecret scrub (name, values) = (¬ IsSecret scrub name) ⊎ (values ≡ codes "[redacted]" ∷ [])

split_commas-plain : (w : Bytes) → HasNoComma w → split_commas w ≡ w ∷ []
unfolding split_commas
split_commas-plain [] h = refl
split_commas-plain (c ∷ w) h = ground (arith, h.0, split_commas-plain w h.1)

split_commas-comma :
    (w s : Bytes) → HasNoComma w → split_commas (w ++ b',' ∷ s) ≡ w ∷ split_commas s
unfolding split_commas
split_commas-comma [] s h = refl
split_commas-comma (c ∷ w) s h = ground (arith, h.0, split_commas-comma w s h.1)

contains-split_commas : {w s : Bytes} → IsPart w s → contains w (split_commas s) ≡ true
unfolding contains
contains-split_commas {w} (whole h) =
    rw (split_commas-plain w h) (ground (arith, bytes_beq_iff w w))
contains-split_commas {w} (front s h) =
    rw (split_commas-comma w s h) (ground (arith, bytes_beq_iff w w))
contains-split_commas {w} (behind v s h p) =
    rw (split_commas-comma v s h) (ground (arith, contains-split_commas p))

contains-keep_parts :
    (w : Bytes) (parts : List Bytes)
    → contains w parts ≡ true
    → trim_space w ≢ []
    → contains (trim_space w) (keep_parts parts) ≡ true
unfolding contains keep_parts
contains-keep_parts w [] h solid = absurd (ground arith)
contains-keep_parts w (part ∷ parts) h solid = elim (Bool-cases (part == w)) [
  | inl same ↦
      let part_is : part ≡ w = (bytes_beq_iff part w).0 same in
      rw part_is (
        ground
          (arith, bytes_beq_iff (trim_space w) [], bytes_beq_iff (trim_space w) (trim_space w)))
  | inr other ↦ ground (arith, contains-keep_parts w parts (ground arith) solid)
]

is_field-contains :
    (f name : Bytes) (fields : List Bytes)
    → contains f fields ≡ true
    → to_lower f ≡ to_lower name
    → is_field fields name ≡ true
unfolding contains is_field equal_fold
is_field-contains f name [] h e = h
is_field-contains f name (g ∷ fields) h e = elim (Bool-cases (g == f)) [
  | inl same ↦
      let field_is : g ≡ f = (bytes_beq_iff g f).0 same in
      rw field_is (ground (arith, e, bytes_beq_iff (to_lower f) (to_lower name)))
  | inr other ↦ ground (arith, is_field-contains f name fields (ground arith) e)
]

-- The test of `Header`, with the fields that the flag gives.
abbrev is_scrubbed : Bytes → Bytes → Bool
is_scrubbed scrub name =
    contains (to_lower name) always_scrubbed || is_field (split_list scrub) name

or_else : (a : Bool) {b : Bool} → b ≡ true → (a || b) ≡ true
or_else true h = refl
or_else false h = h

IsSecret-is_scrubbed : {scrub name : Bytes} → IsSecret scrub name → is_scrubbed scrub name ≡ true
unfolding contains split_list bytes_beq
IsSecret-is_scrubbed (authorization e) = rw e refl
IsSecret-is_scrubbed (proxy_authorization e) = rw e refl
IsSecret-is_scrubbed (cookie e) = rw e refl
IsSecret-is_scrubbed (set_cookie e) = rw e refl
IsSecret-is_scrubbed (x_api_key e) = rw e refl
IsSecret-is_scrubbed {scrub} {name} (listed w part solid e) =
    or_else (contains (to_lower name) always_scrubbed) (
      is_field-contains (trim_space w) name (split_list scrub)
        (contains-keep_parts w (split_commas scrub) (contains-split_commas part) solid) e)

pub IsScrubbed-KeepsSecret :
    (scrub : Bytes) (header : Bytes × List Bytes)
    → IsScrubbed (split_list scrub) header
    → KeepsSecret scrub header
IsScrubbed-KeepsSecret scrub (name, values) h = elim (Bool-cases (is_scrubbed scrub name)) [
  | inl secret ↦ inr (h secret)
  | inr plain ↦ inl (λ s. absurd (ground (arith, plain, IsSecret-is_scrubbed s)))
]
