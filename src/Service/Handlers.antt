-- ===== src/Service/Handlers.antt =====
-- cmd/dark-canary/main.go and dashboard.go: `newServer`, `consume`, `sweep`, and the handlers that
-- answer with a report, the statistics and the dashboard.
use dark_canary.Prelude.{
  Bool, true, false, not, ◌&&◌, ◌||◌, Option, none, some, List, [], ◌∷◌, Bytes, codes, nat_eq,
  bytes_eq, ◌==◌, if◌then◌else◌,
}
use dark_canary.Collector.Types.{Time, Pair, Stats, Options, Buffer}
use dark_canary.Collector.Buffer.{receive, stats, sweep, new as new_buffer}
use dark_canary.Safety.Config.{Rates, Config}
use dark_canary.Safety.KillSwitch.{fresh, engaged_at}
use dark_canary.Noise.Rules.{Ruleset}
use dark_canary.Noise.Suppress.{suppress}
use dark_canary.Diff.Runtime.{Runtime}
use dark_canary.Diff.Engine.{Engine, new_engine}
use dark_canary.Diff.Compare.{diff}
use dark_canary.Report.Aggregator.{Aggregator, Summary, summary, add, new as new_aggregator}
use dark_canary.Report.Text.{Formats, Tabs}
use dark_canary.Report.Writing.{text}
use dark_canary.Server.Capturing.{Server, Request, authorised}

-- The source's `server`: what handles captures, the engine and the aggregator.
pub record Service : Type 0 where
  pub server : Server
  pub engine : Engine
  pub agg : Aggregator

-- What a handler reads of a request: the token header, the query's format, the `Accept` header.
pub record Query : Type 0 where
  pub token : Bytes
  pub format : Bytes
  pub accept : Bytes

-- 401 or 404; or the summary, encoded or as the pieces of text that the client took; or the
-- statistics with the kill switch; or the page.
pub data Reply : Type 0 where
  unauthorised not_found page : Reply
  encoded_summary : Summary → Reply
  written_summary : List Bytes → Reply
  statistics : Stats → Bool → Reply

unfoldable pub starts_with : Bytes → Bytes → Bool
starts_with [] s = true
starts_with (c ∷ p) [] = false
starts_with (c ∷ p) (d ∷ s) = c == d && starts_with p s

-- `strings.Contains`
unfoldable pub contains_text : Bytes → Bytes → Bool
unfolding starts_with
contains_text p [] = starts_with p []
contains_text p (c ∷ s) = starts_with p (c ∷ s) || contains_text p s

unfoldable pub wants_json : Query → Bool
unfolding contains_text
wants_json q = q.format == codes "json" || contains_text (codes "application/json") q.accept

-- The token of a request, for `authorised`, which reads no more of it.
abbrev pub asks : Query → Request
asks q = record { token = q.token; method = []; body = none }

-- `handleReport`, for a client that takes the pieces of the text or not.
unfoldable pub handle_report :
    {Error : Type 0}
    → Time
    → (List Bytes → Bytes → Option Error)
    → Formats
    → Tabs
    → Service
    → Query
    → Reply
unfolding authorised summary wants_json text
handle_report now accepts formats tabs s q =
    if not (authorised s.server (asks q))
    then unauthorised
    else if wants_json q
    then encoded_summary (summary now s.agg)
    else written_summary (text accepts formats tabs (summary now s.agg)).0.written

-- `handleStats`
unfoldable pub handle_stats : Time → Bool → Service → Query → Service × Reply
unfolding authorised stats
handle_stats t exists s q =
    let (kill, on) = engaged_at t exists s.server.kill in
    if not (authorised s.server (asks q)) then (s, unauthorised) else (
      record s { server = record (s.server) { kill = kill } },
      statistics (stats s.server.buffer) on,
    )

-- `handleDashboard`, at a path.
unfoldable pub handle_dashboard : Bytes → Reply
handle_dashboard path = if not (path == codes "/") then not_found else page

-- A round of the loop of `sweep`.
unfoldable pub sweep_round : Time → Service → Service
sweep_round now s = record s {
  server = record (s.server) { buffer = (sweep now s.server.buffer).0 };
}

-- A round of the loop of `periodic`: what it has written.
unfoldable pub periodic_round :
    {Error : Type 0}
    → Time
    → (List Bytes → Bytes → Option Error)
    → Formats
    → Tabs
    → Service
    → List Bytes
unfolding summary text
periodic_round now accepts formats tabs s =
    (text accepts formats tabs (summary now s.agg)).0.written

-- `newServer`, with the token that `run` sets.
unfoldable pub new_server :
    (rt : Runtime) (rates : Rates) → Time → Config rates → Bytes → Ruleset → Options → Service
unfolding new_engine
new_server rt rates now cfg token rules opts = record {
  server = record {
    reads_only = cfg.mirror_reads_only;
    max_body = cfg.max_body_bytes;
    fields = cfg.scrub_fields;
    token = token;
    kill = fresh cfg.kill_file 0;
    buffer = new_buffer opts;
  };
  engine = new_engine (some (suppress rt rules)) 0;
  agg = new_aggregator now;
}

module _ (rt : Runtime) where
  -- `s.agg.Add(s.engine.Diff(pair))`
  unfoldable pub compare_pair : Time → Pair → Service → Service
  compare_pair now p s = record s { agg = add now (diff rt s.engine p) s.agg }

  -- What a receive gives: the buffer after it, and the pair, if there was one.
  abbrev pub consumed : Time → Service → Buffer × Option Pair → Service
  consumed now s (b, none) = record s { server = record (s.server) { buffer = b } }
  consumed now s (b, some p) =
      compare_pair now p (record s { server = record (s.server) { buffer = b } })

  -- A round of the loop of `consume` as one whole: a receive, a diff and an addition to the report.
  -- Service.Live has the steps one by one.
  unfoldable pub consume_round : Time → Service → Service
  unfolding compare_pair receive
  consume_round now s = consumed now s (receive s.server.buffer)
