-- ===== src/Service/Guard.antt =====
-- cmd/dark-canary/main.go: the guarded handlers against a request without the token.
use dark_canary.Prelude.{
  ◌≡◌, ◌≢◌, refl, Bool, false, Option, List, [], Bytes, bytes_eq, bytes_beq_iff, arith,
}
use dark_canary.Collector.Types.{Time, Capture}
use dark_canary.Report.Text.{Formats, Tabs}
use dark_canary.Server.Capturing.{Server, Request, authorised, handle_capture}
use dark_canary.Service.Handlers.{Service, Query, unauthorised, asks, handle_report, handle_stats}

stranger : (s : Server) (r : Request) → s.token ≢ [] → r.token ≢ s.token → authorised s r ≡ false
unfolding authorised
stranger s r set wrong = ground (arith, bytes_beq_iff s.token [], bytes_beq_iff r.token s.token)

-- A server with a token, and requests that do not carry it: /captures, /report and /stats refuse them
-- as unauthorised, whatever else they say, and neither the collector nor even the kill switch is
-- touched.
pub strangers_refused :
    {Error : Type 0} (s : Service) (r : Request) (q : Query) (now t : Time) (exists : Bool)
    (accepts : List Bytes → Bytes → Option Error) (formats : Formats) (tabs : Tabs)
    (decode : Bytes → Option Capture) (replace : Bytes → Bytes → Bytes)
    → s.server.token ≢ []
    → r.token ≢ s.server.token
    → q.token ≢ s.server.token
    → (handle_capture t exists now decode replace s.server r ≡ (s.server, 401))
      × (handle_report now accepts formats tabs s q ≡ unauthorised)
      × (handle_stats t exists s q ≡ (s, unauthorised))
unfolding handle_capture handle_report handle_stats
strangers_refused s r q now t exists accepts formats tabs decode replace set wrong wrong' = (
  rw (stranger s.server r set wrong) refl,
  rw (stranger s.server (asks q) set wrong') refl,
  rw (stranger s.server (asks q) set wrong') refl,
)
