-- ===== src/Program/Main.antt =====
-- cmd/dark-canary/main.go and proxy.go: `newProxy`, and the state that `run` begins to serve with.
use dark_canary.Prelude.{ℕ, List, []}
use dark_canary.Collector.Types.{Time, Pair, Options}
use dark_canary.Noise.Rules.{Ruleset}
use dark_canary.Diff.Runtime.{Runtime}
use dark_canary.Safety.Config.{Rates, Config}
use dark_canary.Server.Capturing.{Server}
use dark_canary.Service.Handlers.{new_server}
use dark_canary.Service.Pipeline.{System as Pipeline}
use dark_canary.Proxy.Mirror.{Proxy}
use dark_canary.Proxy.System.{System as Requests, idle}
use dark_canary.Command.Flags.{Flags}
use dark_canary.Diff.Engine.{Engine}
use dark_canary.Report.Aggregator.{Aggregator}

-- The collector's options of the flags; the depth of the channel is left to the collector.
abbrev pub options_of : {rates : Rates} → Flags rates → Options
options_of o = record { timeout = o.timeout; max_pending = o.max_pending; buffer = 0 }

module _ (rates : Rates) where
  -- `newProxy`, as far as `mirror` and its slots go.
  unfoldable pub new_proxy : Server → rates.Rate → ℕ → Proxy rates
  new_proxy srv rate inflight = record {
    server = srv;
    rate = rate;
    slots = inflight;
    used = 0;
    n = 0;
    skipped = 0;
  }

  -- The requests at the proxy, whose server is the one of the handlers and loops; the rest of that
  -- service; and the pairs that it has compared.
  pub record Program : Type 0 where
    pub requests : Requests rates
    pub engine : Engine
    pub agg : Aggregator
    pub compared : List (Time × Pair)

  -- The program as the handlers and loops see it.
  abbrev pub view : Program → Pipeline
  view w = record {
    service = record { server = w.requests.proxy.server; engine = w.engine; agg = w.agg };
    compared = w.compared;
  }

  -- The program after something has been done to what they see.
  abbrev pub put : Pipeline → Program → Program
  put v w = record {
    requests = record (w.requests) {
      proxy = record (w.requests.proxy) { server = v.service.server };
    };
    engine = v.service.engine;
    agg = v.service.agg;
    compared = v.compared;
  }

  -- The server and the proxy that `run` makes. Without upstreams the proxy is never used.
  unfoldable pub begin : Runtime → Time → Flags rates → Config rates → Ruleset → Program
  unfolding new_proxy
  begin rt now o cfg rs =
      let service = new_server rt rates now cfg o.token rs (options_of o) in
      record {
        requests = idle rates (new_proxy service.server cfg.sample_rate o.inflight);
        engine = service.engine;
        agg = service.agg;
        compared = [];
      }
