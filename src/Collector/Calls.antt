-- ===== src/Collector/Calls.antt =====
-- internal/collector/collector.go: runs of calls on the buffer and on the queue.
use mathlib.Core.Path.{subst, Path}
use dark_canary.Prelude.{
  ℕ, ◌≡◌, refl, ap, ◌∙◌, Option, none, some, List, [], ◌∷◌, arith, bytes_eq, All, length,
}
use dark_canary.Collector.Types.{Time, Capture, Pair, Stats, Buffer}
use dark_canary.Collector.Buffer.{ingest, sweep, receive, stats}
use dark_canary.Collector.Expiry.{stale, expire_lem}
use dark_canary.Collector.Invariant.{
  IsValid, IsValid-IsAligned, sweep-IsValid, with_pairs-IsValid, IsMatched,
}
use dark_canary.Collector.Ingest.{ingest-IsValid}
use dark_canary.Collector.Queue.{Queue, forget, leave, accept, take_pair}
use dark_canary.Collector.Refinement.{ingest-accept}

-- A call of the buffer, at the time that the clock shows.
pub data Call : Type 0 where
  capture : Time → Capture → Call
  tick : Time → Call
  fetch count : Call

-- What a call returns: nothing, the number of captures dropped, a pair if there is one, the counters.
pub data Seen : Type 0 where
  nothing : Seen
  gone : ℕ → Seen
  fetched : Option Pair → Seen
  counters : Stats → Seen

-- The calls on the buffer, with what they return, and on the queue.
unfoldable pub call : Call → Buffer → Buffer × Seen
unfolding sweep receive stats
call (capture now c) b = (ingest now c b, nothing)
call (tick now) b = let (b', n) = sweep now b in (b', gone n)
call fetch b = let (b', p) = receive b in (b', fetched p)
call count b = (b, counters (stats b))

unfoldable pub queue_call : Call → Queue → Queue × Seen
unfolding accept leave take_pair
queue_call (capture now c) q = (accept now c q, nothing)
queue_call (tick now) q = (leave now q, gone (stale now q.opts q.waiting))
queue_call fetch q = let (q', p) = take_pair q in (q', fetched p)
queue_call count q =
    (q, counters (record (q.stats) { pending = length q.waiting; backlog = length q.pairs }))

unfoldable pub run_calls : List Call → Buffer → List Seen
unfolding call
run_calls [] b = []
run_calls (c ∷ cs) b = let (b', seen) = call c b in seen ∷ run_calls cs b'

unfoldable pub run_queue : List Call → Queue → List Seen
unfolding queue_call
run_queue [] q = []
run_queue (c ∷ cs) q = let (q', seen) = queue_call c q in seen ∷ run_queue cs q'

abbrev got : Buffer → List Pair → Buffer × Option Pair
got b [] = (b, none)
got b (p ∷ ps) = (record b { pairs = ps }, some p)

abbrev queue_got : Queue → List Pair → Queue × Option Pair
queue_got q [] = (q, none)
queue_got q (p ∷ ps) = (record q { pairs = ps }, some p)

got-queue_got :
    (b : Buffer) (l : List Pair)
    → b.pairs ≡ l
    → IsValid b
    → IsValid (got b l).0
      × Path
          (Queue × Seen)
          (forget (got b l).0, fetched (got b l).1)
          ((queue_got (forget b) l).0, fetched (queue_got (forget b) l).1)
got-queue_got b [] e v = (v, refl)
got-queue_got b (p ∷ ps) e v = (
  with_pairs-IsValid ps v (omega (arith, ap length e, v.backlog))
      (subst (All IsMatched) e v.matched).1,
  refl,
)

-- One call: the invariant is kept, and the queue makes the same step and returns the same.
call-queue_call :
    (c : Call) (b : Buffer)
    → IsValid b
    → IsValid (call c b).0
      × Path (Queue × Seen) (forget (call c b).0, (call c b).1) (queue_call c (forget b))
unfolding call queue_call sweep leave receive take_pair
call-queue_call (capture now c) b v =
    (ingest-IsValid now c v, ap (λ q. (q, nothing)) (ingest-accept now c b v))
call-queue_call (tick now) b v =
    (sweep-IsValid now v, rw (expire_lem now b (IsValid-IsAligned v)) refl)
call-queue_call fetch b v = got-queue_got b b.pairs refl v
call-queue_call count b v = (v, refl)

-- On a buffer with its invariant, whatever calls follow one another, each run with no other goroutine
-- in between: they return what the same calls on the queue return, which forgets the map and the
-- order and holds the waiting captures in one list.
pub run_calls-run_queue :
    (cs : List Call) (b : Buffer) → IsValid b → run_calls cs b ≡ run_queue cs (forget b)
unfolding run_calls run_queue
run_calls-run_queue [] b v = refl
run_calls-run_queue (c ∷ cs) b v =
    let (ok, step) = call-queue_call c b v in
    let (b', seen) = call c b in
    ap (λ (rest : List Seen). seen ∷ rest) (run_calls-run_queue cs b' ok)
    ∙ ap (λ (r : Queue × Seen). r.1 ∷ run_queue cs r.0) step
