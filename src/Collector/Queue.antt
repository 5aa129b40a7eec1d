-- ===== src/Collector/Queue.antt =====
-- internal/collector/collector.go: the buffer as its users see it. One queue of waiting captures,
-- oldest first, in place of a map and a slice of its keys, and no step between two critical sections.
use dark_canary.Prelude.{
  ◌+◌, Option, none, some, List, [], ◌∷◌, ◌++◌, Bytes, bytes_eq, ◌==◌, if◌then◌else◌, ltb, leb,
  length, lookup, insert, delete,
}
use dark_canary.Collector.Types.{Time, Capture, Pair, Stats, Options, Held, Buffer}
use dark_canary.Collector.Buffer.{is_malformed, stamp, make_pair}
use dark_canary.Collector.Expiry.{survivors, stale}

pub record Queue : Type 0 where
  pub waiting : List (Bytes × Held)
  pub stats : Stats
  pub opts : Options
  pub pairs : List Pair

-- The buffer without its order.
abbrev pub forget : Buffer → Queue
forget b = record { waiting = b.pending; stats = b.stats; opts = b.opts; pairs = b.pairs }

abbrev pub rest_of : List (Bytes × Held) → List (Bytes × Held)
rest_of [] = []
rest_of (e ∷ m) = m

-- Those in front that have timed out leave.
unfoldable pub leave : Time → Queue → Queue
leave now q = record q {
  waiting = survivors now q.opts q.waiting;
  stats = record (q.stats) { expired = q.stats.expired + stale now q.opts q.waiting };
}

-- A capture joins the queue; the oldest one gives way if there is no room.
unfoldable pub join : Bytes × Held → Queue → Queue
join e q =
    if leb q.opts.max_pending (length q.waiting)
    then record q {
      waiting = rest_of q.waiting ++ e ∷ [];
      stats = record (q.stats) { dropped = q.stats.dropped + 1 };
    }
    else record q { waiting = q.waiting ++ e ∷ [] }

-- A pair is made: it counts as paired if there is room for it, and else as dropped.
unfoldable pub hand_over : Pair → Queue → Queue
hand_over p q =
    if ltb (length q.pairs) q.opts.buffer
    then record q {
      pairs = q.pairs ++ p ∷ [];
      stats = record (q.stats) { paired = q.stats.paired + 1 };
    }
    else record q { stats = record (q.stats) { dropped = q.stats.dropped + 1 } }

-- A capture whose request already waits: the same side takes its place, the other side meets it.
unfoldable pub pair_up : Time → Capture → Held → Queue → Queue
unfolding hand_over
pair_up now c held q =
    if held.capture.path == c.path
    then record q { waiting = insert c.correl_id (record { capture = c; at = now }) q.waiting }
    else hand_over (make_pair c held.capture) (record q { waiting = delete c.correl_id q.waiting })

unfoldable pub turn_up : Time → Capture → Queue → Queue
unfolding join pair_up
turn_up now c q = elim (lookup c.correl_id q.waiting) [
  | some held ↦ pair_up now c held q
  | none ↦ join (c.correl_id, record { capture = c; at = now }) q
]

-- A capture at a time.
unfoldable pub accept : Time → Capture → Queue → Queue
unfolding turn_up leave
accept now c q =
    let counted : Queue = record q {
      stats = record (q.stats) { received = q.stats.received + 1 };
    } in
    if is_malformed c
    then record counted {
      stats = record (counted.stats) { discarded = counted.stats.discarded + 1 };
    }
    else turn_up now (stamp now c) (leave now counted)

-- The oldest pair, and the queue without it.
unfoldable pub take_pair : Queue → Queue × Option Pair
take_pair q = elim (q.pairs) [ [] ↦ (q, none) | p ∷ ps ↦ (record q { pairs = ps }, some p) ]
