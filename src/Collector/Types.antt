-- ===== src/Collector/Types.antt =====
-- internal/collector/collector.go: captures, pairs, counters, options and the buffer's state.
-- A time is a number of nanoseconds, and 0 is Go's zero time. Counters are unbounded.
use dark_canary.Prelude.{ℕ, List, Bytes, codes}

abbrev pub Time : Type 0
Time = ℕ

-- A header map: each name with its values.
abbrev pub Headers : Type 0
Headers = List (Bytes × List Bytes)

pub record Capture : Type 0 where
  pub path : Bytes
  pub correl_id : Bytes
  pub method : Bytes
  pub url : Bytes
  pub req_headers : Headers
  pub req_body : Bytes
  pub status : ℕ
  pub res_headers : Headers
  pub res_body : Bytes
  pub latency : ℕ
  pub at : Time

pub record Pair : Type 0 where
  pub correl_id : Bytes
  pub primary : Capture
  pub shadow : Capture

abbrev pub path_primary : Bytes
path_primary = codes "primary"

abbrev pub path_shadow : Bytes
path_shadow = codes "shadow"

pub record Stats : Type 0 where
  pub received : ℕ
  pub paired : ℕ
  pub pending : ℕ
  pub expired : ℕ
  pub dropped : ℕ
  pub discarded : ℕ
  pub backlog : ℕ

-- The clock of the source's options is an argument of each operation.
pub record Options : Type 0 where
  pub timeout : ℕ
  pub max_pending : ℕ
  pub buffer : ℕ

abbrev pub default_timeout : ℕ
default_timeout = 30_000_000_000

abbrev pub default_max_pending : ℕ
default_max_pending = 10_000

abbrev pub default_buffer : ℕ
default_buffer = 256

-- A capture that waits for its partner (the source's `pending`).
pub record Held : Type 0 where
  pub capture : Capture
  pub at : Time

-- `pairs` is the content of the channel, whose capacity is `opts.buffer`.
pub record Buffer : Type 0 where
  pub pending : List (Bytes × Held)
  pub order : List Bytes
  pub stats : Stats
  pub opts : Options
  pub pairs : List Pair
