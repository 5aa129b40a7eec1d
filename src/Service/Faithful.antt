-- ===== src/Service/Faithful.antt =====
-- cmd/dark-canary/main.go: the report of the server against the captures that it was given.
use mathlib.Core.Path.{subst}
use dark_canary.Prelude.{
  ◌≡◌, refl, sym, ap, ◌∙◌, inl, inr, Bool, Option, none, some, List, [], ◌∷◌, ◌++◌, append-nil,
  arith, Bytes, length, length-append, All, All-append, List-cases, Bool-cases,
}
use dark_canary.Collector.Types.{Time, Pair, Options, Buffer}
use dark_canary.Collector.Buffer.{receive, sweep}
use dark_canary.Collector.Invariant.{IsMatched}
use dark_canary.Collector.Contents.{PairHolds}
use dark_canary.Safety.Config.{Rates, Config}
use dark_canary.Safety.KillSwitch.{engaged_at}
use dark_canary.Noise.Rules.{Ruleset}
use dark_canary.Diff.Runtime.{Runtime}
use dark_canary.Diff.Engine.{Engine, Result}
use dark_canary.Diff.Compare.{diff}
use dark_canary.Report.Aggregator.{Aggregator, add}
use dark_canary.Report.Counts.{add_all}
use dark_canary.Server.Capturing.{authorised}
use dark_canary.Server.Guards.{IsClean}
use dark_canary.Server.Safe.{IsSafe, with_kill-IsSafe, sweep-IsSafe, receive-IsSafe}
use dark_canary.Service.Handlers.{
  Query, asks, handle_stats, sweep_round, compare_pair, consume_round, new_server,
}
use dark_canary.Service.Pipeline.{
  System, taken, after_consume, Step, capture, tick, consume, ask, Reach, here, next, results,
  IsFit, IsFaithful, fresh_start,
}
use dark_canary.Service.Keeping.{
  sweep-channel, fresh_start-IsFaithful, after_capture-IsFaithful, with_server-IsFaithful,
}

module _ (rt : Runtime) where
  add_all-append :
      (now : Time) (r : Result) (rs : List (Time × Result)) (a : Aggregator)
      → add_all (rs ++ (now, r) ∷ []) a ≡ add now r (add_all rs a)
  unfolding add_all
  add_all-append now r [] a = refl
  add_all-append now r ((t, q) ∷ rs) a = add_all-append now r rs (add t q a)

  results-append :
      (e : Engine) (now : Time) (p : Pair) (ps : List (Time × Pair))
      → results rt e (ps ++ (now, p) ∷ []) ≡ results rt e ps ++ (now, diff rt e p) ∷ []
  results-append e now p [] = refl
  results-append e now p ((t, q) ∷ ps) =
      ap (λ rs. (t, diff rt e q) ∷ rs) (results-append e now p ps)

  abbrev received : (b : Buffer) → List Pair → Buffer × Option Pair
  received b [] = (b, none)
  received b (p ∷ ps) = (record b { pairs = ps }, some p)

  receive_nil : (b : Buffer) → b.pairs ≡ [] → receive b ≡ (b, none)
  unfolding receive
  receive_nil b h = ap (received b) h

  receive_cons :
      (b : Buffer) (p : Pair) (ps : List Pair)
      → b.pairs ≡ p ∷ ps
      → receive b ≡ (record b { pairs = ps }, some p)
  unfolding receive
  receive_cons b p ps h = rw (h, receive) refl

  pub after_consume_lem :
      (now : Time) (s : System)
      → after_consume rt now s ≡ taken rt now s (receive s.service.server.buffer)
  unfolding after_consume consume_round
  after_consume_lem now s = refl

  taken-IsFaithful :
      (now : Time) (p : Pair) (ps : List Pair) {e : Engine} {a : Aggregator} {s : System}
      → s.service.server.buffer.pairs ≡ p ∷ ps
      → IsSafe
          (record (s.service.server) { buffer = record (s.service.server.buffer) { pairs = ps } })
      → IsFaithful rt e a s
      → IsFaithful rt e a (taken rt now s (record (s.service.server.buffer) { pairs = ps }, some p))
  unfolding compare_pair
  taken-IsFaithful now p ps {e} {a} {s} more safe h =
      let server = s.service.server in
      let matched = (subst (All IsMatched) more h.safe.valid.matched).0 in
      let clean =
        (subst (All (PairHolds (IsClean server.max_body server.fields server.reads_only))) more
          h.safe.stores.1).0 in
      record {
        safe = safe;
        engine = h.engine;
        fit = All-append (IsFit rt server) s.compared ((now, p) ∷ []) h.fit ((matched, clean), tt);
        paired = omega (arith, h.paired, ap length more, length-append s.compared ((now, p) ∷ []));
        reported =
            ap (λ e'. add now (diff rt e' p) s.service.agg) h.engine
            ∙ ap (add now (diff rt e p)) h.reported
            ∙ sym (add_all-append now (diff rt e p) (results rt e s.compared) a)
            ∙ ap (λ rs. add_all rs a) (sym (results-append e now p s.compared));
      }

  after_consume-IsFaithful :
      (now : Time) {e : Engine} {a : Aggregator} {s : System}
      → IsFaithful rt e a s
      → IsFaithful rt e a (after_consume rt now s)
  after_consume-IsFaithful now {e} {a} {s} h =
      let b = s.service.server.buffer in
      elim (List-cases b.pairs) [
        | inl empty ↦
            subst (IsFaithful rt e a)
              (ap (λ ps. record s { compared = ps }) (sym (append-nil s.compared))
                ∙ ap (taken rt now s) (sym (receive_nil b empty))
                ∙ sym (after_consume_lem now s))
              h
        | inr (p, ps, more) ↦
            let got = receive_cons b p ps more in
            subst (IsFaithful rt e a)
              (ap (taken rt now s) (sym got) ∙ sym (after_consume_lem now s))
              (taken-IsFaithful now p ps more
                (subst
                  (λ (o : Buffer × Option Pair).
                    IsSafe (record (s.service.server) { buffer = o.0 }))
                  got (receive-IsSafe h.safe))
                h)
      ]

  after_ask-IsFaithful :
      (now : Time) (exists : Bool) (q : Query) {e : Engine} {a : Aggregator} {s : System}
      → IsFaithful rt e a s
      → IsFaithful rt e a (record s { service = (handle_stats now exists s.service q).0 })
  unfolding handle_stats
  after_ask-IsFaithful now exists q {e} {a} {s} h =
      let kill = (engaged_at now exists s.service.server.kill).0 in
      elim (Bool-cases (authorised s.service.server (asks q))) [
        | inr out ↦ rw out h
        | inl known ↦ rw known (
            with_server-IsFaithful rt (record (s.service.server) { kill = kill }) refl refl h.fit
              (with_kill-IsSafe kill h.safe) h)
      ]

  after_tick-IsFaithful :
      (now : Time) {e : Engine} {a : Aggregator} {s : System}
      → IsFaithful rt e a s
      → IsFaithful rt e a (record s { service = sweep_round now s.service })
  unfolding sweep_round
  after_tick-IsFaithful now {e} {a} {s} h =
      let b = s.service.server.buffer in
      let (channel, count) = sweep-channel now h.safe.valid in
      with_server-IsFaithful rt (record (s.service.server) { buffer = (sweep now b).0 }) count
        channel h.fit (sweep-IsSafe now h.safe) h

  pub Step-IsFaithful :
      {e : Engine} {a : Aggregator} {s t : System}
      → Step rt s t
      → IsFaithful rt e a s
      → IsFaithful rt e a t
  Step-IsFaithful (capture asked_at exists now decode replace r q) h =
      rw q (after_capture-IsFaithful rt asked_at exists now decode replace r h)
  Step-IsFaithful (tick now q) h = rw q (after_tick-IsFaithful now h)
  Step-IsFaithful (consume now q) h = rw q (after_consume-IsFaithful now h)
  Step-IsFaithful (ask now exists r q) h = rw q (after_ask-IsFaithful now exists r h)

  -- However captures, rounds of the sweeper and of the consumer, and requests for statistics follow
  -- one another, from a new server on: its buffer has its invariant and holds only what may be stored;
  -- the report is that of the pairs compared, one after the other, each compared once with the
  -- engine's rules; each of them is one primary and one shadow capture of one correlation id, within
  -- the limits, free of credentials and configured fields in its headers and, in reads-only mode, of
  -- requests that read; and the count of pairs is of those compared and those in the channel.
  pub Reach-IsFaithful :
      (rates : Rates) (now : Time) (cfg : Config rates) (token : Bytes) (rules : Ruleset)
      (opts : Options) {s : System}
      → Reach rt (fresh_start rt (new_server rt rates now cfg token rules opts)) s
      → IsFaithful rt
          (new_server rt rates now cfg token rules opts).engine
          (new_server rt rates now cfg token rules opts).agg
          s
  Reach-IsFaithful rates now cfg token rules opts here =
      fresh_start-IsFaithful rt rates now cfg token rules opts
  Reach-IsFaithful rates now cfg token rules opts (next r st) =
      Step-IsFaithful st (Reach-IsFaithful rates now cfg token rules opts r)
