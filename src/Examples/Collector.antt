-- ===== src/Examples/Collector.antt =====
-- A collector with room for one capture and one pair, and the two captures of one request.
use dark_canary.Prelude.{
  ◌≢◌, ◌++◌, ◌+◌, ◌≡◌, refl, List, [], ◌∷◌, none, Bytes, codes, inl, arith, length, keep, lookup,
  insert, contains, false, bytes_eq, bytes_beq,
}
use dark_canary.Collector.Types.{Capture, Pair, path_primary, path_shadow, Options, Buffer}
use dark_canary.Collector.Buffer.{
  new, is_malformed, stamp, make_pair, ingest_locked, ingest, sweep, expire, file_capture, store,
  remove, meet, expire_loop,
}
use dark_canary.Collector.Invariant.{IsValid, OfPair}
use dark_canary.Collector.Interleaving.{
  System, start, after_capture, after_send, capture, send, Reach, here, next, IsSound,
  Reach-IsSound,
}
use dark_canary.Collector.Ingest.{weight, is_replacement, as_count, ingest_locked-IsValid}
use dark_canary.Collector.Expiry.{IsAligned}
use dark_canary.Collector.Sweeping.{is_live_entry, sweep-exact, sweep-blocked}
use dark_canary.Collector.Queue.{forget}
use dark_canary.Collector.Calls.{Call, run_calls, run_queue, run_calls-run_queue}
use dark_canary.Collector.Pairing.{pair_of, ingest-pairs}

abbrev small_options : Options
small_options = record { timeout = 10; max_pending = 1; buffer = 1 }

abbrev side : Bytes → Bytes → Capture
side path id = record {
  path = path;
  correl_id = id;
  method = codes "GET";
  url = codes "/orders";
  req_headers = [];
  req_body = [];
  status = 200;
  res_headers = [];
  res_body = codes "[1,2]";
  latency = 3;
  at = 5;
}

abbrev first : Capture
first = side path_primary (codes "a")

abbrev second : Capture
second = side path_shadow (codes "a")

abbrev the_pair : Pair
the_pair = record { correl_id = codes "a"; primary = first; shadow = second }

-- The first capture comes, then the second, and their pair is sent.
abbrev waiting : System
waiting = after_capture 5 first (start small_options)

abbrev met : System
met = after_capture 6 second waiting

abbrev sent : System
sent = after_send [] the_pair [] met

met-sending : met.sending ≡ the_pair ∷ []
unfolding new ingest_locked expire expire_loop is_malformed stamp file_capture store meet remove
    make_pair lookup bytes_beq insert
met-sending = refl

trace : Reach (start small_options) sent
trace =
    next (next (next here (capture 5 first refl)) (capture 6 second refl))
      (send [] the_pair [] met-sending refl)

Reach-IsSound_example : IsSound sent
Reach-IsSound_example = Reach-IsSound small_options trace

-- A buffer that holds one capture.
abbrev holding : Buffer
holding = record (new small_options) {
  pending = (codes "a", record { capture = first; at = 5 }) ∷ [];
  order = codes "a" ∷ [];
}

empty-IsValid : IsValid (new small_options)
unfolding new
empty-IsValid = record {
  aligned = refl;
  distinct = tt;
  bounded = omega arith;
  room = omega arith;
  backlog = omega arith;
  filed = tt;
  matched = tt;
}

holding-IsValid : IsValid holding
unfolding new contains
holding-IsValid = record {
  aligned = refl;
  distinct = (refl, tt);
  bounded = omega arith;
  room = omega arith;
  backlog = omega arith;
  filed = ((refl, inl refl), tt);
  matched = tt;
}

first_good : is_malformed first ≡ false
unfolding is_malformed bytes_beq
first_good = refl

second_good : is_malformed second ≡ false
unfolding is_malformed bytes_beq
second_good = refl

named : first.correl_id ≢ []
named = cc

-- The buffer with no capture in it.
abbrev empty : Buffer
empty = new small_options

abbrev stamped_pair : Pair
stamped_pair = pair_of (stamp 5 first) (stamp 6 second)

empty_absent : lookup first.correl_id empty.pending ≡ none
unfolding new lookup
empty_absent = refl

ingest-pairs_example :
    ((ingest 6 second (ingest 5 first empty)).pairs ≡ empty.pairs ++ stamped_pair ∷ [])
    × ((ingest 5 first (ingest 6 second empty)).pairs ≡ empty.pairs ++ stamped_pair ∷ [])
    × (lookup first.correl_id (ingest 6 second (ingest 5 first empty)).pending ≡ none)
    × (lookup first.correl_id (ingest 5 first (ingest 6 second empty)).pending ≡ none)
unfolding new
ingest-pairs_example =
    ingest-pairs 5 6 first second {b = empty} empty-IsValid refl refl named refl empty_absent
      (omega arith) (omega arith) (omega arith)

holding-IsAligned : IsAligned holding
unfolding contains
holding-IsAligned = record { aligned = refl; distinct = (refl, tt) }

sweep-exact_example :
    ((sweep 20 holding).0.pending ≡ keep (is_live_entry 20 holding.opts) holding.pending)
    × ((sweep 20 holding).1 + length (keep (is_live_entry 20 holding.opts) holding.pending)
        ≡ length holding.pending)
sweep-exact_example = sweep-exact 20 holding holding-IsAligned (tt, tt)

sweep-blocked_example :
    ((sweep 20 (ingest 12 first holding)).1 ≡ 0)
    × (length (sweep 20 (ingest 12 first holding)).0.pending ≡ length holding.pending)
unfolding new
sweep-blocked_example =
    sweep-blocked 12 20 first (record { capture = first; at = 5 }) [] holding-IsValid refl
      first_good refl (omega arith) (omega arith)

ingest_locked-IsValid_example :
    IsValid (ingest_locked 6 second holding).0
    × OfPair (ingest_locked 6 second holding).1
    × (weight (ingest_locked 6 second holding).0 + as_count (is_replacement 6 second holding)
        ≡ weight holding + 1)
ingest_locked-IsValid_example = ingest_locked-IsValid 6 second holding-IsValid

-- The other side of a request that waits, a sweep, and a fetch.
abbrev three_calls : List Call
three_calls = Call.capture 8 second ∷ Call.tick 9 ∷ Call.fetch ∷ Call.count ∷ []

run_calls-run_queue_example : run_calls three_calls holding ≡ run_queue three_calls (forget holding)
run_calls-run_queue_example = run_calls-run_queue three_calls holding holding-IsValid
