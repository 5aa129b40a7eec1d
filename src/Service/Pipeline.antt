-- ===== src/Service/Pipeline.antt =====
-- cmd/dark-canary/main.go: the server as a whole, with its loops and handlers in any order. A step is
-- a whole handler or round; Collector.Interleaving and Service.Live are about the steps inside of them.
use dark_canary.Prelude.{◌+◌, ◌≡◌, Bool, Option, List, [], ◌∷◌, ◌++◌, Bytes, length, All}
use dark_canary.Collector.Types.{Time, Capture, Pair, Buffer}
use dark_canary.Collector.Buffer.{receive}
use dark_canary.Collector.Invariant.{IsMatched}
use dark_canary.Collector.Counters.{option_list}
use dark_canary.Collector.Contents.{PairHolds}
use dark_canary.Diff.Runtime.{Runtime}
use dark_canary.Diff.Engine.{Engine, Result}
use dark_canary.Diff.Compare.{diff}
use dark_canary.Report.Aggregator.{Aggregator}
use dark_canary.Report.Counts.{add_all}
use dark_canary.Server.Capturing.{Server, Request, handle_capture}
use dark_canary.Server.Guards.{IsClean}
use dark_canary.Server.Safe.{IsSafe}
use dark_canary.Service.Handlers.{
  Service, Query, handle_stats, sweep_round, consumed, consume_round,
}

-- The service, and the pairs that it has compared, in order and with the times of the report.
pub record System : Type 0 where
  pub service : Service
  pub compared : List (Time × Pair)

abbrev pub noted : Time → List Pair → List (Time × Pair)
noted now [] = []
noted now (p ∷ ps) = (now, p) ∷ noted now ps

abbrev pub after_capture :
    Time
    → Bool
    → Time
    → (Bytes → Option Capture)
    → (Bytes → Bytes → Bytes)
    → Request
    → System
    → System
after_capture asked_at exists now decode replace r s = record s {
  service = record (s.service) {
    server = (handle_capture asked_at exists now decode replace s.service.server r).0;
  };
}

module _ (rt : Runtime) where
  abbrev pub taken : Time → System → Buffer × Option Pair → System
  taken now s got = record s {
    service = consumed rt now s.service got;
    compared = s.compared ++ noted now (option_list got.1);
  }

  unfoldable pub after_consume : Time → System → System
  unfolding consume_round
  after_consume now s = record s {
    service = consume_round rt now s.service;
    compared = s.compared ++ noted now (option_list (receive s.service.server.buffer).1);
  }

  pub data Step (s t : System) : Type 0 where
    capture :
        (asked_at : Time) (exists : Bool) (now : Time) (decode : Bytes → Option Capture)
        (replace : Bytes → Bytes → Bytes) (r : Request)
        → t ≡ after_capture asked_at exists now decode replace r s
        → Step s t
    tick : (now : Time) → t ≡ record s { service = sweep_round now s.service } → Step s t
    consume : (now : Time) → t ≡ after_consume now s → Step s t
    ask :
        (now : Time) (exists : Bool) (q : Query)
        → t ≡ record s { service = (handle_stats now exists s.service q).0 }
        → Step s t

  pub data Reach (s : System) : System → Type 0 where
    here : Reach s s
    next : {t u : System} → Reach s t → Step t u → Reach s u

  -- The results of the pairs, at their times.
  abbrev pub results : Engine → List (Time × Pair) → List (Time × Result)
  results e [] = []
  results e ((now, p) ∷ ps) = (now, diff rt e p) ∷ results e ps

  -- A pair of one primary and one shadow capture of one request, with nothing in it that may not be
  -- stored.
  abbrev pub IsFit : Server → Time × Pair → Type 0
  IsFit s (now, p) = IsMatched p × PairHolds (IsClean s.max_body s.fields s.reads_only) p

  -- The state against the pairs that have been compared.
  pub record IsFaithful (e : Engine) (a : Aggregator) (s : System) : Type 0 where
    pub safe : IsSafe s.service.server
    pub engine : s.service.engine ≡ e
    pub fit : All (IsFit s.service.server) s.compared
    pub paired :
        s.service.server.buffer.stats.paired
        ≡ length s.compared + length s.service.server.buffer.pairs
    pub reported : s.service.agg ≡ add_all (results e s.compared) a

  abbrev pub fresh_start : Service → System
  fresh_start s = record { service = s; compared = [] }
