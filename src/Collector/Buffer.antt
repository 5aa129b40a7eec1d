-- ===== src/Collector/Buffer.antt =====
-- internal/collector/collector.go: the operations of `Buffer`, one function for each.
-- A method returns the new buffer. The two critical sections of `Ingest` and the send between
-- them are functions of their own, since other goroutines run between them.
use dark_canary.Prelude.{
  ℕ, ◌+◌, ◌-◌, Bool, true, false, not, ◌&&◌, ◌||◌, Option, none, some, List, [], ◌∷◌, ◌++◌, Bytes,
  bytes_eq, nat_eq, ◌==◌, if◌then◌else◌, ltb, leb, length, keep, is_some, lookup, insert, delete,
}
use dark_canary.Collector.Types.{
  Time, Capture, Pair, path_primary, path_shadow, Stats, Options, default_timeout,
  default_max_pending, default_buffer, Held, Buffer,
}

abbrev no_stats : Stats
no_stats = record {
  received = 0;
  paired = 0;
  pending = 0;
  expired = 0;
  dropped = 0;
  discarded = 0;
  backlog = 0;
}

-- `New`: an option that is not positive gets its default.
unfoldable pub new : Options → Buffer
new opts = record {
  pending = [];
  order = [];
  stats = no_stats;
  opts = record {
    timeout = if opts.timeout == 0 then default_timeout else opts.timeout;
    max_pending = if opts.max_pending == 0 then default_max_pending else opts.max_pending;
    buffer = if opts.buffer == 0 then default_buffer else opts.buffer;
  };
  pairs = [];
}

-- `compactOrder`: the ids that are still pending.
unfoldable pub compact_order : Buffer → Buffer
compact_order b = record b { order = keep (λ id. is_some (lookup id b.pending)) b.order }

-- `p.at.After(now.Add(-timeout))`, with the timeout on the other side.
abbrev pub is_live : Time → Options → Held → Bool
is_live now opts p = ltb now (p.at + opts.timeout)

abbrev drop_expired : Bytes → Buffer → Buffer
drop_expired id b = record b {
  pending = delete id b.pending;
  stats = record (b.stats) { expired = b.stats.expired + 1 };
}

-- The loop of `expire` over the ids, with the number of captures that it has dropped.
unfoldable pub expire_loop : Time → List Bytes → Buffer → ℕ → Buffer × ℕ
expire_loop now [] b expired = (b, expired)
expire_loop now (id ∷ ids) b expired = elim (lookup id b.pending) [
  | none ↦ expire_loop now ids b expired
  | some p ↦
      let rest = expire_loop now ids (drop_expired id b) (expired + 1) in
      if is_live now b.opts p then (b, expired) else rest
]

unfoldable pub expire : Time → Buffer → Buffer × ℕ
expire now b =
    let (b', expired) = expire_loop now b.order b 0 in
    (if ltb 0 expired then compact_order b' else b', expired)

-- `Sweep`: `expire` under the lock.
unfoldable pub sweep : Time → Buffer → Buffer × ℕ
sweep now b = expire now b

-- The loop of `evictOldest`: it drops the first id of the order that is still pending.
unfoldable pub evict_loop : List Bytes → Buffer → Buffer
unfolding compact_order
evict_loop [] b = b
evict_loop (id ∷ ids) b = elim (lookup id b.pending) [
  | none ↦ evict_loop ids b
  | some _ ↦ compact_order (record b {
    pending = delete id b.pending;
    stats = record (b.stats) { dropped = b.stats.dropped + 1 };
  })
]

unfoldable pub evict_oldest : Buffer → Buffer
evict_oldest b = evict_loop b.order b

unfoldable pub remove : Bytes → Buffer → Buffer
unfolding compact_order
remove id b = compact_order (record b { pending = delete id b.pending })

-- The pair that a capture makes with the one that is held.
unfoldable pub make_pair : Capture → Capture → Pair
make_pair c held =
    if c.path == path_primary
    then record { correl_id = c.correl_id; primary = c; shadow = held }
    else record { correl_id = c.correl_id; primary = held; shadow = c }

-- A capture without a correlation id, or of neither path.
unfoldable pub is_malformed : Capture → Bool
is_malformed c = c.correl_id == [] || (not (c.path == path_primary) && not (c.path == path_shadow))

-- `if c.At.IsZero() { c.At = now }`
unfoldable pub stamp : Time → Capture → Capture
stamp now c = if c.at == 0 then record c { at = now } else c

-- The end of `Ingest`: no partner is held, so the capture waits.
unfoldable pub store : Time → Capture → Buffer → Buffer
store now c b =
    let room = if leb b.opts.max_pending (length b.pending) then evict_oldest b else b in
    record room {
      pending = insert c.correl_id (record { capture = c; at = now }) room.pending;
      order = room.order ++ c.correl_id ∷ [];
    }

-- A capture meets one with its correlation id: the same side again replaces it, the other side
-- makes a pair with it.
unfoldable pub meet : Time → Capture → Held → Buffer → Buffer × Option Pair
meet now c held b =
    let b' = remove c.correl_id b in
    if held.capture.path == c.path
    then (
      record b { pending = insert c.correl_id (record { capture = c; at = now }) b.pending },
      none,
    )
    else (
      record b' { stats = record (b'.stats) { paired = b'.stats.paired + 1 } },
      some (make_pair c held.capture),
    )

-- `Ingest` behind its call of `expire`: the capture meets a held one, or waits.
unfoldable pub file_capture : Time → Capture → Buffer → Buffer × Option Pair
file_capture now c b = elim (lookup c.correl_id b.pending) [
  | some held ↦ meet now c held b
  | none ↦ (store now c b, none)
]

-- The first critical section of `Ingest`, with the pair that is to be sent after it.
unfoldable pub ingest_locked : Time → Capture → Buffer → Buffer × Option Pair
ingest_locked now c b =
    let counted : Buffer = record b {
      stats = record (b.stats) { received = b.stats.received + 1 };
    } in
    if is_malformed c
    then (
      record counted { stats = record (counted.stats) { discarded = counted.stats.discarded + 1 } },
      none,
    )
    else file_capture now (stamp now c) (expire now counted).0

-- The `select`: true if the channel had room for the pair.
unfoldable pub try_send : Pair → Buffer → Buffer × Bool
try_send pair b =
    if ltb (length b.pairs) b.opts.buffer
    then (record b { pairs = b.pairs ++ pair ∷ [] }, true)
    else (b, false)

-- The second critical section of `Ingest`, after a send that found no room.
unfoldable pub count_drop : Buffer → Buffer
count_drop b = record b {
  stats = record (b.stats) { dropped = b.stats.dropped + 1; paired = b.stats.paired - 1 };
}

unfoldable pub deliver : Pair → Buffer → Buffer
unfolding try_send count_drop
deliver pair b = let (b', sent) = try_send pair b in if sent then b' else count_drop b'

-- `Ingest`, run with no other goroutine in between.
unfoldable pub ingest : Time → Capture → Buffer → Buffer
ingest now c b =
    let (b', pair) = ingest_locked now c b in elim pair [ none ↦ b' | some p ↦ deliver p b' ]

-- A receive from `Pairs()`: the oldest pair, if there is one.
unfoldable pub receive : Buffer → Buffer × Option Pair
receive b = elim (b.pairs) [ [] ↦ (b, none) | p ∷ ps ↦ (record b { pairs = ps }, some p) ]

-- `Stats`: the counters, and the two sizes.
unfoldable pub stats : Buffer → Stats
stats b = record (b.stats) { pending = length b.pending; backlog = length b.pairs }
