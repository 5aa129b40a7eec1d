-- ===== src/Proxy/Filing.antt =====
-- cmd/dark-canary/proxy.go: what the server holds while the proxy files captures.
use dark_canary.Prelude.{
  ◌≡◌, true, not, ◌||◌, arith, Bytes, codes, bytes_eq, bytes_beq_iff, contains,
}
use dark_canary.Collector.Types.{Time, Capture}
use dark_canary.Collector.Ingest.{ingest-IsValid}
use dark_canary.Collector.Contents.{ingest-Contains}
use dark_canary.Server.Capturing.{Server, idempotent, to_upper, is_read, cleaned}
use dark_canary.Server.Guards.{IsClean, cleaned-IsClean, stamp-IsClean}
use dark_canary.Proxy.Mirror.{file}
use dark_canary.Server.Safe.{IsSafe}

-- A method that may be mirrored.
abbrev pub IsAllowed : Server → Bytes → Type 0
IsAllowed s method = (not s.reads_only || contains method idempotent) ≡ true

-- The methods that are mirrored are in capitals, as the handler's test reads them.
contains-is_read : (method : Bytes) → contains method idempotent ≡ true → is_read method ≡ true
unfolding is_read contains to_upper
contains-is_read method h = ground (
  arith,
  bytes_beq_iff (codes "GET") method,
  bytes_beq_iff (codes "HEAD") method,
  bytes_beq_iff (codes "OPTIONS") method,
)

pub file-IsSafe :
    (now : Time) (replace : Bytes → Bytes → Bytes) (c : Capture) {s : Server}
    → IsAllowed s c.method
    → IsSafe s
    → IsSafe (file now replace c s)
unfolding file
file-IsSafe now replace c {s} allowed h = record {
  valid = ingest-IsValid now (cleaned replace s c) h.valid;
  stores =
      ingest-Contains (IsClean s.max_body s.fields s.reads_only) now (cleaned replace s c) h.valid
        (stamp-IsClean now (cleaned replace s c)
          (cleaned-IsClean replace s c (ground (arith, contains-is_read c.method))))
        h.stores;
}
