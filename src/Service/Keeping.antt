-- ===== src/Service/Keeping.antt =====
-- cmd/dark-canary/main.go: the start of the service, and what its handlers leave of it.
use mathlib.Core.Path.{subst}
use dark_canary.Prelude.{◌≡◌, refl, ap, inl, inr, Bool, Option, arith, Bytes, length, All}
use dark_canary.Collector.Types.{Time, Capture, Options, Buffer}
use dark_canary.Collector.Buffer.{sweep, new}
use dark_canary.Collector.Invariant.{IsValid, IsValid-IsAligned}
use dark_canary.Collector.Expiry.{expire_lem}
use dark_canary.Collector.Ingest.{ingest-IsValid}
use dark_canary.Collector.Interleaving.{start-IsSound}
use dark_canary.Safety.Config.{Rates, Config}
use dark_canary.Noise.Rules.{Ruleset}
use dark_canary.Diff.Runtime.{Runtime}
use dark_canary.Diff.Engine.{Engine}
use dark_canary.Report.Aggregator.{Aggregator}
use dark_canary.Report.Counts.{add_all}
use dark_canary.Server.Capturing.{Server, Request, handle_capture}
use dark_canary.Server.Guards.{Stores, handle_capture-Stores}
use dark_canary.Server.Safe.{IsSafe, with_kill-IsSafe}
use dark_canary.Service.Capture.{Files, handle_capture-Files, ingest-paired}
use dark_canary.Service.Handlers.{new_server}
use dark_canary.Service.Pipeline.{System, after_capture, IsFit, IsFaithful, fresh_start}

pub sweep-channel :
    (now : Time) {b : Buffer}
    → IsValid b
    → ((sweep now b).0.pairs ≡ b.pairs) × ((sweep now b).0.stats.paired ≡ b.stats.paired)
unfolding sweep
sweep-channel now {b} v = rw (expire_lem now b (IsValid-IsAligned v)) (refl, refl)

module _ (rt : Runtime) where
  pub fresh_start-IsFaithful :
      (rates : Rates) (now : Time) (cfg : Config rates) (token : Bytes) (rules : Ruleset)
      (opts : Options)
      → IsFaithful rt
          (new_server rt rates now cfg token rules opts).engine
          (new_server rt rates now cfg token rules opts).agg
          (fresh_start rt (new_server rt rates now cfg token rules opts))
  unfolding new_server new add_all
  fresh_start-IsFaithful rates now cfg token rules opts = record {
    safe = record { valid = (start-IsSound opts).valid; stores = (tt, tt) };
    engine = refl;
    fit = tt;
    paired = refl;
    reported = refl;
  }

  handle_capture-IsSafe :
      (asked_at : Time) (exists : Bool) (now : Time) (decode : Bytes → Option Capture)
      (replace : Bytes → Bytes → Bytes) (s : Server) (r : Request)
      → IsSafe s
      → IsSafe (handle_capture asked_at exists now decode replace s r).0
  handle_capture-IsSafe asked_at exists now decode replace s r h =
      let stored = handle_capture-Stores asked_at exists now decode replace s r h.valid h.stores in
      elim (handle_capture-Files asked_at exists now decode replace s r) [
        | inl (kill, e) ↦ rw e (with_kill-IsSafe kill h)
        | inr (kill, c, e) ↦ rw e (record {
          valid = ingest-IsValid now c h.valid;
          stores = subst (λ (s' : Server). Stores s s'.buffer) e stored;
        })
      ]

  -- The server files a capture, or does no more than ask the kill switch.
  pub files-IsFaithful :
      (now : Time) (server : Server) {e : Engine} {a : Aggregator} {s : System}
      → Files now s.service.server server
      → IsSafe server
      → IsFaithful rt e a s
      → IsFaithful rt e a (record s { service = record (s.service) { server = server } })
  files-IsFaithful now server (inl (kill, same)) safe h = rw same (record {
    safe = with_kill-IsSafe kill h.safe;
    engine = h.engine;
    fit = h.fit;
    paired = h.paired;
    reported = h.reported;
  })
  files-IsFaithful now server (inr (kill, c, filed)) safe h = rw filed (record {
    safe = subst IsSafe filed safe;
    engine = h.engine;
    fit = h.fit;
    paired = omega (arith, h.paired, ingest-paired now c h.safe.valid);
    reported = h.reported;
  })

  pub after_capture-IsFaithful :
      (asked_at : Time) (exists : Bool) (now : Time) (decode : Bytes → Option Capture)
      (replace : Bytes → Bytes → Bytes) (r : Request) {e : Engine} {a : Aggregator} {s : System}
      → IsFaithful rt e a s
      → IsFaithful rt e a (after_capture asked_at exists now decode replace r s)
  after_capture-IsFaithful asked_at exists now decode replace r {e} {a} {s} h =
      let server = s.service.server in
      files-IsFaithful now (handle_capture asked_at exists now decode replace server r).0
        (handle_capture-Files asked_at exists now decode replace server r)
        (handle_capture-IsSafe asked_at exists now decode replace server r h.safe) h

  -- A step that leaves the channel, the count of pairs and the settings alone.
  pub with_server-IsFaithful :
      (server : Server) {e : Engine} {a : Aggregator} {s : System}
      → server.buffer.stats.paired ≡ s.service.server.buffer.stats.paired
      → server.buffer.pairs ≡ s.service.server.buffer.pairs
      → All (IsFit rt server) s.compared
      → IsSafe server
      → IsFaithful rt e a s
      → IsFaithful rt e a (record s { service = record (s.service) { server = server } })
  with_server-IsFaithful server count channel fit safe h = record {
    safe = safe;
    engine = h.engine;
    fit = fit;
    paired = omega (arith, h.paired, count, ap length channel);
    reported = h.reported;
  }
