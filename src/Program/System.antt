-- ===== src/Program/System.antt =====
-- cmd/dark-canary/main.go: what `run` lets happen, in any order: the handlers and loops of the service
-- and, where there are upstreams, the requests at the proxy, on one server.
use dark_canary.Prelude.{◌≡◌, Option, List, Bytes}
use dark_canary.Diff.Runtime.{Runtime}
use dark_canary.Safety.Config.{Rates}
use dark_canary.Service.Pipeline.{System as Pipeline, Step as ServiceStep}
use dark_canary.Proxy.System.{
  System as Requests, Step as RequestStep, arrive, read_body, shadow_done, primary_done,
  primary_failed, sweeper, consumer,
}
use dark_canary.Report.Text.{Formats, Tabs}
use dark_canary.Service.Routes.{HttpRequest, Moment, serve}
use dark_canary.Command.Failure.{Failure}
use dark_canary.Command.Upstreams.{Upstreams, collector_mode, proxy_mode, bad_upstreams}
use dark_canary.Program.Main.{Program, view, put}

abbrev pub IsProxying : Upstreams → Type 0
IsProxying (proxy_mode p s) = Unit
IsProxying collector_mode = ⊥
IsProxying (bad_upstreams e) = ⊥

module _ (rates : Rates) where
  -- The step is one of a request; the sweeper and the consumer are steps of the service.
  abbrev pub IsRequest : {s t : Requests rates} → RequestStep rates s t → Type 0
  IsRequest (arrive now exists draw r e) = Unit
  IsRequest (read_body l r rest q e) = Unit
  IsRequest (shadow_done now replace l f rest a q e) = Unit
  IsRequest (primary_done now replace l f rest a q e) = Unit
  IsRequest (primary_failed l f rest q e) = Unit
  IsRequest (sweeper now e) = ⊥
  IsRequest (consumer e) = ⊥

  module _ (rt : Runtime) (ups : Upstreams) where
    pub data Step (w w' : Program rates) : Type 1 where
      served : {v : Pipeline} → ServiceStep rt (view rates w) v → w' ≡ put rates v w → Step w w'
      routed :
          (accepts : List Bytes → Bytes → Option Failure) (formats : Formats) (tabs : Tabs)
          (choose : List Bytes → Bytes → Option Bytes) (m : Moment) (r : HttpRequest)
          → w'
            ≡ put rates
                (record (view rates w) {
                  service = (serve accepts formats tabs choose m r (view rates w).service).0;
                })
                w
          → Step w w'
      proxied :
          IsProxying ups
          → {q : Requests rates} (st : RequestStep rates w.requests q) → IsRequest st
          → w' ≡ record w { requests = q }
          → Step w w'

    pub data Reach (w : Program rates) : Program rates → Type 1 where
      here : Reach w w
      next : {w' u : Program rates} → Reach w w' → Step w' u → Reach w u
