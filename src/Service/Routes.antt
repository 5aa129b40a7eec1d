-- ===== src/Service/Routes.antt =====
-- cmd/dark-canary/main.go: `routes`, and a request through Go's multiplexer, which is an argument: of
-- the patterns that are registered it picks one for a path, or none.
use dark_canary.Prelude.{
  ℕ, Bool, Option, none, some, List, [], ◌∷◌, Bytes, bytes_eq, codes, map, lookup,
}
use dark_canary.Collector.Types.{Time, Capture}
use dark_canary.Report.Text.{Formats, Tabs}
use dark_canary.Server.Capturing.{Request, handle_capture}
use dark_canary.Service.Handlers.{
  Service, Query, Reply, handle_report, handle_stats, handle_dashboard,
}

pub data Route : Type 0 where
  captures report stats healthz dashboard : Route

-- What `routes` registers, in its order.
abbrev pub routes : List (Bytes × Route)
routes =
    (codes "/captures", captures)
    ∷ (codes "/report", report)
    ∷ (codes "/stats", stats)
    ∷ (codes "/healthz", healthz)
    ∷ (codes "/", dashboard)
    ∷ []

abbrev pub patterns : List (Bytes × Route) → List Bytes
patterns = map (λ (r : Bytes × Route). r.0)

-- All that the handlers read of a request.
pub record HttpRequest : Type 0 where
  pub path : Bytes
  pub token : Bytes
  pub method : Bytes
  pub body : Option Bytes
  pub format : Bytes
  pub accept : Bytes

abbrev pub posted : HttpRequest → Request
posted r = record { token = r.token; method = r.method; body = r.body }

abbrev pub queried : HttpRequest → Query
queried r = record { token = r.token; format = r.format; accept = r.accept }

-- The status of `handleCapture`, the answer of another handler, that of the probe, or the
-- multiplexer's own.
pub data Response : Type 0 where
  status_of : ℕ → Response
  answered : Reply → Response
  probed unrouted : Response

-- What a handler meets besides: the clock when it asks the kill switch, whether the kill file is there,
-- the clock after that, and how JSON is read and fields are replaced.
pub record Moment : Type 0 where
  pub asked_at : Time
  pub exists : Bool
  pub now : Time
  pub decode : Bytes → Option Capture
  pub replace : Bytes → Bytes → Bytes

module _ {Error : Type 0} (accepts : List Bytes → Bytes → Option Error) (formats : Formats)
    (tabs : Tabs) where
  unfoldable pub handle : Moment → Route → HttpRequest → Service → Service × Response
  unfolding handle_capture handle_report handle_stats handle_dashboard
  handle m captures r s =
      let (server, code) =
        handle_capture m.asked_at m.exists m.now m.decode m.replace s.server (posted r) in
      (record s { server = server }, status_of code)
  handle m report r s = (s, answered (handle_report m.now accepts formats tabs s (queried r)))
  handle m stats r s =
      let (s', reply) = handle_stats m.asked_at m.exists s (queried r) in (s', answered reply)
  handle m healthz r s = (s, probed)
  handle m dashboard r s = (s, answered (handle_dashboard r.path))

  abbrev pub routed : Moment → Option Route → HttpRequest → Service → Service × Response
  routed m none r s = (s, unrouted)
  routed m (some h) r s = handle m h r s

  abbrev pub chosen : Option Bytes → Option Route
  chosen none = none
  chosen (some pattern) = lookup pattern routes

  -- A request through the multiplexer.
  unfoldable pub serve :
      (List Bytes → Bytes → Option Bytes) → Moment → HttpRequest → Service → Service × Response
  serve choose m r s = routed m (chosen (choose (patterns routes) r.path)) r s

  -- A request leaves the service as it is, or as the handler of captures or of statistics leaves it.
  routed_cases :
      (P : Service → Type 0) (o : Option Route) (m : Moment) (r : HttpRequest) (s : Service)
      → P s
      → P (record s {
        server =
            (handle_capture m.asked_at m.exists m.now m.decode m.replace s.server (posted r)).0;
      })
      → P (handle_stats m.asked_at m.exists s (queried r)).0
      → P (routed m o r s).0
  unfolding handle
  routed_cases P none m r s same captured asked = same
  routed_cases P (some captures) m r s same captured asked = captured
  routed_cases P (some report) m r s same captured asked = same
  routed_cases P (some stats) m r s same captured asked = asked
  routed_cases P (some healthz) m r s same captured asked = same
  routed_cases P (some dashboard) m r s same captured asked = same

  pub serve_cases :
      (P : Service → Type 0) (choose : List Bytes → Bytes → Option Bytes) (m : Moment)
      (r : HttpRequest) (s : Service)
      → P s
      → P (record s {
        server =
            (handle_capture m.asked_at m.exists m.now m.decode m.replace s.server (posted r)).0;
      })
      → P (handle_stats m.asked_at m.exists s (queried r)).0
      → P (serve choose m r s).0
  unfolding serve
  serve_cases P choose m r s same captured asked =
      routed_cases P (chosen (choose (patterns routes) r.path)) m r s same captured asked
