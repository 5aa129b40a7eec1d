-- ===== src/Diff/Headers.antt =====
-- internal/diff/diff.go: `diffHeaders` and `headerValue`.
use dark_canary.Prelude.{
  Bool, not, List, [], ◌∷◌, ◌++◌, Bytes, codes, nat_eq, bytes_eq, ◌==◌, if◌then◌else◌, keys,
  contains, keep, bytes_lt, sort, to_lower, equal_fold, join,
}
use dark_canary.Collector.Types.{Headers}
use dark_canary.Diff.Value.{string}
use dark_canary.Diff.Runtime.{Runtime}
use dark_canary.Diff.Engine.{Result, Engine, header, path_headers, add}

abbrev transport_headers : List Bytes
transport_headers =
    codes "connection"
    ∷ codes "keep-alive"
    ∷ codes "transfer-encoding"
    ∷ codes "content-length"
    ∷ codes "te"
    ∷ codes "trailer"
    ∷ codes "upgrade"
    ∷ codes "proxy-authenticate"
    ∷ codes "proxy-authorization"
    ∷ []

unfoldable pub is_transport : Bytes → Bool
is_transport name = contains name transport_headers

-- The set of the lowered names, in the order in which they are met.
unfoldable pub add_names : List Bytes → List Bytes → List Bytes
add_names [] names = names
add_names (k ∷ ks) names =
    add_names ks (if contains (to_lower k) names then names else names ++ to_lower k ∷ [])

unfoldable pub header_names : Headers → Headers → List Bytes
unfolding add_names is_transport
header_names primary shadow =
    sort bytes_lt
      (keep (λ n. not (is_transport n)) (add_names (keys shadow) (add_names (keys primary) [])))

-- The values of the first name that folds to `name`, joined; a missing header is the empty text.
unfoldable pub header_value : Headers → Bytes → Bytes
header_value [] name = []
header_value ((k, v) ∷ h) name =
    if equal_fold k name then join v (codes ", ") else header_value h name

module _ (rt : Runtime) (e : Engine) where
  -- One round of the loop of `diffHeaders`.
  unfoldable pub diff_header : Headers → Headers → Bytes → Result → Result
  diff_header primary shadow name r =
      let a = header_value primary name in
      let b = header_value shadow name in
      if a == b
      then r
      else add rt e header (path_headers ++ codes "/" ++ name) (string a) (string b) r

  unfoldable pub diff_names : Headers → Headers → List Bytes → Result → Result
  unfolding diff_header
  diff_names primary shadow [] r = r
  diff_names primary shadow (n ∷ ns) r =
      diff_names primary shadow ns (diff_header primary shadow n r)

  unfoldable pub diff_headers : Headers → Headers → Result → Result
  unfolding diff_names
  diff_headers primary shadow r = diff_names primary shadow (header_names primary shadow) r
