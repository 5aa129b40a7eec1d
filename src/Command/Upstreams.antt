-- ===== src/Command/Upstreams.antt =====
-- cmd/dark-canary/config.go and proxy.go: `upstreams` and `parseUpstream`. Go's URL parser is an
-- argument, and of what it gives the program tests the scheme and the host.
use dark_canary.Prelude.{not, ◌&&◌, [], Bytes, codes, bytes_eq, ◌==◌, if◌then◌else◌}
use dark_canary.Command.Failure.{Failure, message, wrapped, usage_error}

pub record Url : Type 0 where
  pub scheme : Bytes
  pub host : Bytes

pub data ParsedUrl : Type 0 where
  parsed : Url → ParsedUrl
  unparsed : Failure → ParsedUrl

-- `parseUpstream`
unfoldable pub parse_upstream : (Bytes → ParsedUrl) → Bytes → ParsedUrl
parse_upstream parse_url raw = elim (parse_url raw) [
  | unparsed e ↦ unparsed (wrapped e)
  | parsed u ↦
      if not (u.scheme == codes "http") && not (u.scheme == codes "https")
      then unparsed message
      else if u.host == []
      then unparsed message
      else parsed u
]

-- Two nil URLs, two URLs, or an error.
pub data Upstreams : Type 0 where
  collector_mode : Upstreams
  proxy_mode : Url → Url → Upstreams
  bad_upstreams : Failure → Upstreams

-- `upstreams`
unfoldable pub upstreams : (Bytes → ParsedUrl) → Bytes → Bytes → Upstreams
unfolding parse_upstream
upstreams parse_url primary shadow =
    if primary == []
    then (if not (shadow == []) then bad_upstreams (usage_error message) else collector_mode)
    else if shadow == []
    then bad_upstreams (usage_error message)
    else elim (parse_upstream parse_url primary) [
      | unparsed e ↦ bad_upstreams (usage_error (wrapped e))
      | parsed p ↦ elim (parse_upstream parse_url shadow) [
        | unparsed e ↦ bad_upstreams (usage_error (wrapped e))
        | parsed s ↦ proxy_mode p s
      ]
    ]
