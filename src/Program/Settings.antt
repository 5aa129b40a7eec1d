-- ===== src/Program/Settings.antt =====
-- cmd/dark-canary/main.go: what no step of the program changes, and what a request does to the server.
use mathlib.Core.Path.{subst}
use dark_canary.Prelude.{
  ℕ, ◌≡◌, refl, sym, inl, inr, Bool, Option, none, some, List, ◌++◌, Bytes, Bool-cases,
  Option-cases,
}
use dark_canary.Collector.Types.{Time, Pair, Buffer}
use dark_canary.Collector.Buffer.{receive}
use dark_canary.Safety.Config.{Rates}
use dark_canary.Diff.Runtime.{Runtime}
use dark_canary.Server.Capturing.{Server, authorised}
use dark_canary.Service.Capture.{Files, handle_capture-Files}
use dark_canary.Service.Handlers.{sweep_round, handle_stats, compare_pair, asks}
use dark_canary.Service.Pipeline.{
  System as Pipeline, Step as ServiceStep, capture, tick, consume, ask, taken,
}
use dark_canary.Service.Faithful.{after_consume_lem}
use dark_canary.Proxy.Mirror.{Incoming, replayed, file, end_shadow, end_primary}
use dark_canary.Proxy.Outcomes.{mirror_cases, launch-none, launch-some}
use dark_canary.Proxy.System.{
  System as Requests, Step as RequestStep, arrive, read_body, shadow_done, primary_done,
  primary_failed, sweeper, consumer, launched, after_launch,
}
use dark_canary.Program.System.{IsRequest}

-- The limits under which a server files captures.
pub record HasSettings (max_body : ℕ) (fields : List Bytes) (reads_only : Bool) (s : Server)
    : Type 0 where
  pub size : s.max_body ≡ max_body
  pub scrubs : s.fields ≡ fields
  pub reads : s.reads_only ≡ reads_only

pub Files-HasSettings :
    {max_body : ℕ} {fields : List Bytes} {reads_only : Bool} (now : Time) {s s' : Server}
    → Files now s s'
    → HasSettings max_body fields reads_only s
    → HasSettings max_body fields reads_only s'
Files-HasSettings now (inl (kill, e)) h =
    rw e (record { size = h.size; scrubs = h.scrubs; reads = h.reads })
Files-HasSettings now (inr (kill, c, e)) h =
    rw e (record { size = h.size; scrubs = h.scrubs; reads = h.reads })

module _ (rt : Runtime) {max_body : ℕ} {fields : List Bytes} {reads_only : Bool} where
  taken-HasSettings :
      (now : Time) (s : Pipeline) (got : Buffer × Option Pair)
      → HasSettings max_body fields reads_only s.service.server
      → HasSettings max_body fields reads_only (taken rt now s got).service.server
  unfolding compare_pair
  taken-HasSettings now s (b, none) h = record { size = h.size; scrubs = h.scrubs; reads = h.reads }
  taken-HasSettings now s (b, some p) h = record {
    size = h.size;
    scrubs = h.scrubs;
    reads = h.reads;
  }

  pub service-HasSettings :
      {s t : Pipeline}
      → ServiceStep rt s t
      → HasSettings max_body fields reads_only s.service.server
      → HasSettings max_body fields reads_only t.service.server
  unfolding sweep_round handle_stats
  service-HasSettings {s} (capture asked_at exists now decode replace r e) h = rw e (
      Files-HasSettings now
        (handle_capture-Files asked_at exists now decode replace s.service.server r) h)
  service-HasSettings (tick now e) h =
      rw e (record { size = h.size; scrubs = h.scrubs; reads = h.reads })
  service-HasSettings {s} (consume now e) h =
      rw (e, after_consume_lem rt now s)
        (taken-HasSettings now s (receive s.service.server.buffer) h)
  service-HasSettings {s} (ask now exists q e) h =
      elim (Bool-cases (authorised s.service.server (asks q))) [
        | inl known ↦ rw (e, known) (record { size = h.size; scrubs = h.scrubs; reads = h.reads })
        | inr out ↦ rw (e, out) h
      ]

module _ (rates : Rates) where
  -- What a request leaves of the proxy: the slots, and the server but for one capture.
  abbrev pub Leaves : Requests rates → Requests rates → Type 0
  Leaves s t =
      (t.proxy.slots ≡ s.proxy.slots) × (now : Time) × Files now s.proxy.server t.proxy.server

  launch-Leaves :
      (r : Incoming) (rest : List Incoming) (s : Requests rates)
      → Leaves s (after_launch rates r rest s)
  launch-Leaves r rest s = elim (Option-cases (replayed s.proxy.server.max_body r.body)) [
    | inl unread ↦
        subst (λ o. Leaves s (launched rates rest s o)) (sym (launch-none rates r s.proxy unread))
          (refl, 0, inl (s.proxy.server.kill, refl))
    | inr (b, read) ↦
        subst (λ o. Leaves s (launched rates rest s o)) (sym (launch-some rates r s.proxy b read))
          (refl, 0, inl (s.proxy.server.kill, refl))
  ]

  pub request-Leaves :
      {s t : Requests rates} (st : RequestStep rates s t) → IsRequest rates st → Leaves s t
  unfolding end_shadow end_primary file
  request-Leaves {s} (arrive now exists draw r e) _ =
      elim (mirror_cases rates now exists draw r.method s.proxy) [
        | inl (kill, skipped, m) ↦ rw (e, m) (refl, now, inl (kill, refl))
        | inr (kill, _, _, m) ↦ rw (e, m) (refl, now, inl (kill, refl))
      ]
  request-Leaves {s} (read_body l r rest q e) _ = rw e (launch-Leaves r (l ++ rest) s)
  request-Leaves {s} (shadow_done now replace l f rest none q e) _ =
      rw e (refl, now, inl (s.proxy.server.kill, refl))
  request-Leaves {s} (shadow_done now replace l f rest (some a) q e) _ =
      rw e (refl, now, inr (s.proxy.server.kill, _, refl))
  request-Leaves {s} (primary_done now replace l f rest a q e) _ =
      rw e (refl, now, inr (s.proxy.server.kill, _, refl))
  request-Leaves {s} (primary_failed l f rest q e) _ =
      rw e (refl, 0, inl (s.proxy.server.kill, refl))
  request-Leaves (sweeper now e) never = absurd never
  request-Leaves (consumer e) never = absurd never
