-- ===== src/Service/Privacy.antt =====
-- cmd/dark-canary/main.go: what a client without the token can learn or change.
use mathlib.Core.Path.{Path}
use dark_canary.Prelude.{ap, ◌≡◌, ◌≢◌, refl, sym, ◌∙◌, Option, none, some, List, [], Bytes}
use dark_canary.Report.Text.{Formats, Tabs}
use dark_canary.Service.Handlers.{Service, unauthorised}
use dark_canary.Service.Guard.{strangers_refused}
use dark_canary.Service.Routes.{
  Route, captures, report, stats, healthz, dashboard, HttpRequest, posted, queried, Moment,
  Response, status_of, answered, handle, routed, serve,
}

module _ {Error : Type 0} (accepts : List Bytes → Bytes → Option Error) (formats : Formats)
    (tabs : Tabs) where
  abbrev IsStranger : HttpRequest → Service → Type 0
  IsStranger r s = (s.server.token ≢ []) × (r.token ≢ s.server.token)

  refused :
      (m : Moment) (r : HttpRequest) (s : Service)
      → IsStranger r s
      → (handle accepts formats tabs m captures r s ≡ (s, status_of 401))
        × (handle accepts formats tabs m report r s ≡ (s, answered unauthorised))
        × (handle accepts formats tabs m stats r s ≡ (s, answered unauthorised))
  unfolding handle
  refused m r s (set, wrong) =
      let (c, rep, st) =
        strangers_refused s (posted r) (queried r) m.now m.asked_at m.exists accepts formats tabs
          m.decode m.replace set wrong wrong in
      (rw c refl, rw rep refl, rw st refl)

  same_reply :
      {a b : Service × Response} {s s' : Service} {x : Response}
      → Path (Service × Response) a (s, x)
      → Path (Service × Response) b (s', x)
      → (a.0 ≡ s) × (a.1 ≡ b.1)
  same_reply p q = (
    ap (λ (o : Service × Response). o.0) p,
    ap (λ (o : Service × Response). o.1) p ∙ sym (ap (λ (o : Service × Response). o.1) q),
  )

  routed_blind :
      (o : Option Route) (m m' : Moment) (r : HttpRequest) (s s' : Service)
      → IsStranger r s
      → IsStranger r s'
      → ((routed accepts formats tabs m o r s).0 ≡ s)
        × ((routed accepts formats tabs m o r s).1 ≡ (routed accepts formats tabs m' o r s').1)
  unfolding handle
  routed_blind none m m' r s s' h h' = (refl, refl)
  routed_blind (some captures) m m' r s s' h h' =
      same_reply ((refused m r s h).0) ((refused m' r s' h').0)
  routed_blind (some report) m m' r s s' h h' =
      same_reply ((refused m r s h).1) ((refused m' r s' h').1)
  routed_blind (some stats) m m' r s s' h h' =
      same_reply ((refused m r s h).2) ((refused m' r s' h').2)
  routed_blind (some healthz) m m' r s s' h h' = (refl, refl)
  routed_blind (some dashboard) m m' r s s' h h' = (refl, refl)

  -- Two services with one token that is not empty, at any two moments, and a request that does not carry it, at any path
  -- and however the multiplexer picks one of the routes: the request leaves the service as it is, the
  -- kill switch included, and both give the same answer, so that it tells nothing of what is stored,
  -- counted or reported.
  pub strangers_blind :
      (choose : List Bytes → Bytes → Option Bytes) (m m' : Moment) (r : HttpRequest)
      (s s' : Service)
      → s.server.token ≢ []
      → s'.server.token ≡ s.server.token
      → r.token ≢ s.server.token
      → ((serve accepts formats tabs choose m r s).0 ≡ s)
        × ((serve accepts formats tabs choose m r s).1
            ≡ (serve accepts formats tabs choose m' r s').1)
  unfolding serve
  strangers_blind choose m m' r s s' set same wrong =
      routed_blind _ m m' r s s' (set, wrong)
        (λ unset. set (sym same ∙ unset), λ right. wrong (right ∙ same))
