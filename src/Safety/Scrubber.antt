-- ===== src/Safety/Scrubber.antt =====
-- internal/safety/safety.go: `Scrubber`. What a compiled pattern replaces is Go's regexp library, and
-- an argument of `scrub_body`.
use dark_canary.Prelude.{
  ◌≡◌, Bool, true, false, ◌||◌, List, [], ◌∷◌, arith, Bytes, codes, nat_eq, bytes_eq, ◌==◌,
  if◌then◌else◌, length, contains, All, to_lower, equal_fold, keep, not,
}
use dark_canary.Collector.Types.{Headers}

abbrev pub redacted : Bytes
redacted = codes "[redacted]"

abbrev pub always_scrubbed : List Bytes
always_scrubbed =
    codes "authorization"
    ∷ codes "proxy-authorization"
    ∷ codes "cookie"
    ∷ codes "set-cookie"
    ∷ codes "x-api-key"
    ∷ []

-- `NewScrubber`: the fields that get a pattern.
unfoldable pub patterns : List Bytes → List Bytes
patterns fields = keep (λ f. not (f == [])) fields

unfoldable pub replace_all : (Bytes → Bytes → Bytes) → List Bytes → Bytes → Bytes
replace_all replace [] out = out
replace_all replace (f ∷ fs) out = replace_all replace fs (replace f out)

-- `Body`; `replace f` is `ReplaceAll` of the pattern of the field `f`.
unfoldable pub scrub_body : (Bytes → Bytes → Bytes) → List Bytes → Bytes → Bytes
unfolding patterns replace_all
scrub_body replace fields body =
    if length (patterns fields) == 0 || length body == 0
    then body
    else replace_all replace (patterns fields) body

-- The loop of `Header` over the fields.
unfoldable pub is_field : List Bytes → Bytes → Bool
is_field [] name = false
is_field (f ∷ fs) name = if equal_fold f name then true else is_field fs name

-- `Header`
unfoldable pub scrub_header : List Bytes → Bytes → List Bytes → List Bytes
unfolding is_field
scrub_header fields name values =
    if contains (to_lower name) always_scrubbed
    then redacted ∷ []
    else if is_field fields name
    then redacted ∷ []
    else values

-- The loops of the server over the headers of a capture.
unfoldable pub scrub_headers : List Bytes → Headers → Headers
unfolding scrub_header
scrub_headers fields [] = []
scrub_headers fields ((name, values) ∷ h) =
    (name, scrub_header fields name values) ∷ scrub_headers fields h

-- A header that is a credential or a configured field carries nothing but the mark.
abbrev pub IsScrubbed : List Bytes → Bytes × List Bytes → Type 0
IsScrubbed fields (name, values) =
    (contains (to_lower name) always_scrubbed || is_field fields name) ≡ true
    → values ≡ redacted ∷ []

pub scrub_headers-IsScrubbed :
    (fields : List Bytes) (h : Headers) → All (IsScrubbed fields) (scrub_headers fields h)
unfolding scrub_headers
scrub_headers-IsScrubbed fields [] = tt
scrub_headers-IsScrubbed fields ((name, values) ∷ h) =
    ((λ e. ground arith), scrub_headers-IsScrubbed fields h)
