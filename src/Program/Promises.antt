-- ===== src/Program/Promises.antt =====
-- cmd/dark-canary/main.go, config.go and proxy.go: what the flags promise of the program while it runs.
use mathlib.Core.Path.{subst}
use dark_canary.Prelude.{
  ℕ, Bool, true, false, Bytes, length, ◌+◌, ◌≤◌, ◌≢◌, ◌≡◌, refl, sym, ◌∙◌, ◌⊎◌, inl, inr, not,
  Option, some, List, [], ◌∷◌, arith, bytes_eq, All,
}
use dark_canary.Collector.Types.{Time, Pair}
use dark_canary.Collector.Invariant.{IsMatched}
use dark_canary.Collector.Contents.{Contains, PairHolds}
use dark_canary.Noise.Rules.{Ruleset}
use dark_canary.Noise.Suppress.{suppress}
use dark_canary.Noise.Validity.{IsUsable}
use dark_canary.Diff.Runtime.{Runtime}
use dark_canary.Diff.Engine.{new_engine}
use dark_canary.Report.Aggregator.{new as new_aggregator}
use dark_canary.Report.Counts.{add_all}
use dark_canary.Safety.Config.{Rates, Config}
use dark_canary.Server.Guards.{IsClean}
use dark_canary.Service.Handlers.{new_server}
use dark_canary.Service.Pipeline.{
  System as Pipeline, Step as ServiceStep, results, IsFaithful, capture, ask,
}
use dark_canary.Service.Routes.{serve_cases, posted, queried}
use dark_canary.Service.Faithful.{Step-IsFaithful}
use dark_canary.Service.Keeping.{fresh_start-IsFaithful, files-IsFaithful}
use dark_canary.Proxy.Mirroring.{IsOrderly, idle-IsOrderly}
use dark_canary.Proxy.Orderly.{with_server-IsOrderly, Step-IsOrderly}
use dark_canary.Command.Failure.{Failure}
use dark_canary.Command.Flags.{Flags, split_list, folded}
use dark_canary.Command.Upstreams.{Upstreams, collector_mode, proxy_mode, bad_upstreams}
use dark_canary.Server.Capturing.{Server}
use dark_canary.Proxy.Mirror.{Flight}
use dark_canary.Proxy.Filing.{IsAllowed}
use dark_canary.Command.Startup.{World, BothOrNeither, serving, start, start-IsSafeStart}
use dark_canary.Program.Main.{options_of, Program, view, put, new_proxy, begin}
use dark_canary.Program.System.{IsProxying, Step, served, routed, proxied, Reach, here, next}
use dark_canary.Program.Kept.{IsReading, idempotent-IsReading, IsKept, held-IsKept, compared-IsKept}
use dark_canary.Program.Settings.{
  HasSettings, Files-HasSettings, service-HasSettings, request-Leaves,
}

module _ (rates : Rates) (rt : Runtime) where
  -- What holds of the program at every moment, by its flags.
  pub record Invariant (since : Time) (o : Flags rates) (rs : Ruleset) (ups : Upstreams)
      (w : Program rates) : Type 0 where
    pub faithful :
        IsFaithful rt (new_engine (some (suppress rt rs)) 0) (new_aggregator since) (view rates w)
    pub orderly : IsOrderly rates w.requests
    pub settings :
        HasSettings o.max_body (split_list o.scrub) (not o.writes) w.requests.proxy.server
    pub slots : w.requests.proxy.slots ≡ o.inflight
    pub mode : IsProxying ups ⊎ (w.requests.arrived ≡ 0)

  begin-Invariant :
      (since : Time) (o : Flags rates) (rs : Ruleset) (ups : Upstreams)
      → Invariant since o rs ups (begin rates rt since o (folded rates o) rs)
  unfolding begin new_proxy new_server folded
  begin-Invariant since o rs ups =
      let fresh =
        fresh_start-IsFaithful rt rates since (folded rates o) o.token rs (options_of o) in
      record {
        faithful = fresh;
        orderly = idle-IsOrderly rates _ fresh.safe refl refl;
        settings = record { size = refl; scrubs = refl; reads = refl };
        slots = refl;
        mode = inr refl;
      }

  served-Invariant :
      {since : Time} {o : Flags rates} {rs : Ruleset} {ups : Upstreams} {w : Program rates}
      {v : Pipeline}
      → ServiceStep rt (view rates w) v
      → Invariant since o rs ups w
      → Invariant since o rs ups (put rates v w)
  served-Invariant {w} {v} st h =
      let faithful = Step-IsFaithful rt st h.faithful in
      let settings = service-HasSettings rt st h.settings in
      record {
        faithful = faithful;
        orderly =
            with_server-IsOrderly rates v.service.server (settings.reads ∙ sym h.settings.reads)
              faithful.safe h.orderly;
        settings = settings;
        slots = h.slots;
        mode = h.mode;
      }

  Step-Invariant :
      {since : Time} {o : Flags rates} {rs : Ruleset} {ups : Upstreams} {w w' : Program rates}
      → Step rates rt ups w w'
      → Invariant since o rs ups w
      → Invariant since o rs ups w'
  Step-Invariant (served st e) h = rw e (served-Invariant st h)
  Step-Invariant {since} {o} {rs} {ups} {w} (routed accepts formats tabs choose m r e) h = rw e (
      serve_cases accepts formats tabs
        (λ v. Invariant since o rs ups (put rates (record (view rates w) { service = v }) w)) choose
        m r (view rates w).service h
        (served-Invariant (capture m.asked_at m.exists m.now m.decode m.replace (posted r) refl) h)
        (served-Invariant (ask m.asked_at m.exists (queried r) refl) h))
  Step-Invariant {w} (proxied mode {q} st asked e) h =
      let orderly = Step-IsOrderly rates st h.orderly in
      let (slots, now, filed) = request-Leaves rates st asked in
      rw e (record {
        faithful = files-IsFaithful rt now q.proxy.server filed orderly.safe h.faithful;
        orderly = orderly;
        settings = Files-HasSettings now filed h.settings;
        slots = slots ∙ h.slots;
        mode = inl mode;
      })

  Reach-Invariant :
      (since : Time) (o : Flags rates) (rs : Ruleset) (ups : Upstreams) {w : Program rates}
      → Reach rates rt ups (begin rates rt since o (folded rates o) rs) w
      → Invariant since o rs ups w
  Reach-Invariant since o rs ups here = begin-Invariant since o rs ups
  Reach-Invariant since o rs ups (next r st) = Step-Invariant st (Reach-Invariant since o rs ups r)

  -- What the flags promise, of what is held, compared, reported and mirrored.
  pub record KeepsPromises (since : Time) (o : Flags rates) (rs : Ruleset) (w : Program rates)
      : Type 0 where
    pub stored : Contains (IsKept o) w.requests.proxy.server.buffer
    pub compared : All (λ (c : Time × Pair). IsMatched c.1 × PairHolds (IsKept o) c.1) w.compared
    pub reported :
        w.agg
        ≡ add_all
            (results rt (new_engine (some (suppress rt rs)) 0) w.compared)
            (new_aggregator since)
    pub usable : All IsUsable rs
    pub inflight : length w.requests.holding + length w.requests.shadows ≤ o.inflight
    pub reads : All (λ (f : Flight). (o.writes ≡ true) ⊎ IsReading f.method) w.requests.shadows
    pub unused : (o.primary ≢ []) ⊎ (w.requests.arrived ≡ 0)

  settled :
      (P : ℕ → List Bytes → Bool → Type 0) {max_body : ℕ} {fields : List Bytes} {reads_only : Bool}
      {s : Server}
      → HasSettings max_body fields reads_only s
      → P s.max_body s.fields s.reads_only
      → P max_body fields reads_only
  settled P {max_body} {fields} {reads_only} {s} h p = subst (P max_body fields) h.reads (
      subst (λ fs. P max_body fs s.reads_only) h.scrubs
        (subst (λ m. P m s.fields s.reads_only) h.size p))

  shadows_read :
      (s : Server) (writes : Bool) (fs : List Flight)
      → s.reads_only ≡ not writes
      → All (λ (f : Flight). IsAllowed s f.method) fs
      → All (λ (f : Flight). (writes ≡ true) ⊎ IsReading f.method) fs
  shadows_read s writes [] same h = tt
  shadows_read s true (f ∷ fs) same (allowed, h) = (inl refl, shadows_read s true fs same h)
  shadows_read s false (f ∷ fs) same (allowed, h) = (
    inr (idempotent-IsReading f.method (ground (arith, same, allowed))),
    shadows_read s false fs same h,
  )

  not_proxying :
      (o : Flags rates) (ups : Upstreams)
      → BothOrNeither rates o ups
      → o.primary ≡ []
      → IsProxying ups
      → ⊥
  not_proxying o collector_mode both no_primary on = on
  not_proxying o (proxy_mode p s) both no_primary on = both.0 no_primary
  not_proxying o (bad_upstreams e) both no_primary on = on

  -- However requests at any path, rounds of the loops and, where upstreams are given, the steps of
  -- proxied requests follow one another, in a program that `run` has let start with its flags: in every
  -- capture that is held and in every pair that was compared, both bodies have at most the flag's size;
  -- each header that is one of the five credentials, or whose name is, case and white space around it
  -- aside, a part of the text of -scrub between its commas that is not blank, holds nothing but the
  -- mark; and, unless writes are allowed, the method reads or is missing. Nothing is said here of the
  -- fields in a body. A pair is one primary and one shadow capture of one correlation id; the report is
  -- that of these pairs by the rules it has loaded, all of them usable; never more requests are
  -- mirrored at once than the flag allows; at the shadow only requests that read are under way, unless
  -- writes are allowed; and without the flag of the primary no request has come to the proxy.
  pub Reach-KeepsPromises :
      (since : Time) (world : World) (o : Flags rates) (cfg : Config rates) (warn : Option Failure)
      (rs : Ruleset) (ups : Upstreams) {w : Program rates}
      → start rates world o ≡ serving cfg warn rs ups
      → Reach rates rt ups (begin rates rt since o cfg rs) w
      → KeepsPromises since o rs w
  Reach-KeepsPromises since world o cfg warn rs ups {w} started reach =
      let safe = start-IsSafeStart rates world o cfg warn rs ups started in
      let h =
        Reach-Invariant since o rs ups
          (subst (λ c. Reach rates rt ups (begin rates rt since o c rs) w) safe.folded_in reach) in
      record {
        stored = held-IsKept o w.requests.proxy.server.buffer (
            settled (λ m fs r. Contains (IsClean m fs r) w.requests.proxy.server.buffer) h.settings
              h.faithful.safe.stores);
        compared = compared-IsKept o w.compared (
            settled
              (λ m fs r.
                All (λ (c : Time × Pair). IsMatched c.1 × PairHolds (IsClean m fs r) c.1)
                  w.compared)
              h.settings h.faithful.fit);
        reported = h.faithful.reported;
        usable = safe.usable;
        inflight = omega (arith, h.orderly.used, h.orderly.bounded, h.slots);
        reads =
            shadows_read w.requests.proxy.server o.writes w.requests.shadows h.settings.reads
              h.orderly.shadow_reads;
        unused = elim (h.mode) [
          | inl on ↦ inl (λ no_primary. not_proxying o ups safe.both no_primary on)
          | inr none_came ↦ inr none_came
        ];
      }
