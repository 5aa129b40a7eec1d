-- ===== src/Program/Stopping.antt =====
-- cmd/dark-canary/main.go, proxy.go and internal/safety/safety.go: the kill switch of a program that
-- runs, under a file that comes and goes.
use dark_canary.Prelude.{
  ◌+◌, ◌≤◌, ◌≡◌, ◌≢◌, refl, sym, ap, ◌∙◌, inl, inr, Bool, true, false, Option, none, some, List, [],
  ◌++◌, Bytes, nat_eq, bytes_eq, ◌==◌, Bool-cases, Option-cases, if◌then◌else◌,
}
use dark_canary.Collector.Types.{Time, Capture, Pair, Buffer}
use dark_canary.Collector.Buffer.{receive}
use dark_canary.Noise.Rules.{Ruleset}
use dark_canary.Diff.Runtime.{Runtime}
use dark_canary.Safety.Config.{Rates}
use dark_canary.Safety.KillSwitch.{
  KillSwitch, default_kill_ttl, lifetime, engaged_at, IsRemembered, engaged_at-IsRemembered,
  engaged_at-remembered,
}
use dark_canary.Server.Capturing.{Request, authorised, handle_capture}
use dark_canary.Service.Handlers.{sweep_round, handle_stats, compare_pair, asks, new_server}
use dark_canary.Service.Pipeline.{
  System as Pipeline, Step as ServiceStep, capture, tick, consume, ask, taken,
}
use dark_canary.Service.Faithful.{after_consume_lem}
use dark_canary.Proxy.Mirror.{
  Incoming, replayed, mirror, file as file_capture, end_shadow, end_primary, capture_primary,
}
use dark_canary.Proxy.Outcomes.{launch-none, launch-some}
use dark_canary.Proxy.System.{
  System as Requests, Step as RequestStep, arrive, read_body, shadow_done, primary_done,
  primary_failed, sweeper, consumer, launched, after_launch,
}
use dark_canary.Command.Flags.{Flags, folded}
use dark_canary.Command.Upstreams.{Upstreams}
use dark_canary.Service.Routes.{serve_cases, posted, queried}
use dark_canary.Program.Main.{view, Program, new_proxy, begin}
use dark_canary.Program.System.{Step, served, routed, proxied, Reach, here, next}
use dark_canary.Program.Asking.{
  Asked, handle_capture-Asked, handle_capture_stopped, mirror-kill, mirror_stopped,
}

-- The switch of the flags, which remembers what the file was.
pub record Remembers (file : Time → Bool) (path : Bytes) (k : KillSwitch) : Type 0 where
  pub same_path : k.path ≡ path
  pub life : lifetime k ≡ default_kill_ttl
  pub last : IsRemembered file k

Asked-Remembers :
    {file : Time → Bool} {path : Bytes} (t : Time) (exists : Bool) {k k' : KillSwitch}
    → exists ≡ file t
    → Asked t exists k k'
    → Remembers file path k
    → Remembers file path k'
Asked-Remembers t exists true_ (inl same) h = rw same h
Asked-Remembers {file} {path} t exists {k} true_ (inr asked) h =
    let (path', ttl', last') = engaged_at-IsRemembered file t k h.last in
    let asked' = asked ∙ ap (λ b. (engaged_at t b k).0) true_ in
    rw asked' (record {
      same_path = path' ∙ h.same_path;
      life = ap (λ n. if n == 0 then default_kill_ttl else n) ttl' ∙ h.life;
      last = last';
    })

module _ (rt : Runtime) (file : Time → Bool) where
  -- Where the step asks the switch, the file is what it is at that time.
  abbrev pub IsTrue : {s t : Pipeline} → ServiceStep rt s t → Type 0
  IsTrue (capture asked_at exists now decode replace r e) = exists ≡ file asked_at
  IsTrue (tick now e) = Unit
  IsTrue (consume now e) = Unit
  IsTrue (ask now exists q e) = exists ≡ file now

  taken-kill :
      (now : Time) (s : Pipeline) (got : Buffer × Option Pair)
      → (taken rt now s got).service.server.kill ≡ s.service.server.kill
  unfolding compare_pair
  taken-kill now s (b, none) = refl
  taken-kill now s (b, some p) = refl

  service-Remembers :
      {path : Bytes} {s t : Pipeline} (st : ServiceStep rt s t)
      → IsTrue st
      → Remembers file path s.service.server.kill
      → Remembers file path t.service.server.kill
  unfolding sweep_round handle_stats
  service-Remembers {path} {s} (capture asked_at exists now decode replace r e) true_ h = rw e (
      Asked-Remembers asked_at exists true_
        (handle_capture-Asked asked_at exists now decode replace s.service.server r) h)
  service-Remembers (tick now e) true_ h = rw e h
  service-Remembers {path} {s} (consume now e) true_ h =
      rw (e, after_consume_lem rt now s, taken-kill now s (receive s.service.server.buffer)) h
  service-Remembers {path} {s} (ask now exists q e) true_ h =
      elim (Bool-cases (authorised s.service.server (asks q))) [
        | inl known ↦ rw (e, known) (Asked-Remembers now exists true_ (inr refl) h)
        | inr out ↦ rw (e, out) h
      ]

module _ (rates : Rates) (file : Time → Bool) where
  abbrev pub IsTrueRequest : {s t : Requests rates} → RequestStep rates s t → Type 0
  IsTrueRequest (arrive now exists draw r e) = exists ≡ file now
  IsTrueRequest (read_body l r rest q e) = Unit
  IsTrueRequest (shadow_done now replace l f rest a q e) = Unit
  IsTrueRequest (primary_done now replace l f rest a q e) = Unit
  IsTrueRequest (primary_failed l f rest q e) = Unit
  IsTrueRequest (sweeper now e) = Unit
  IsTrueRequest (consumer e) = Unit

  launch-kill :
      (r : Incoming) (rest : List Incoming) (s : Requests rates)
      → (after_launch rates r rest s).proxy.server.kill ≡ s.proxy.server.kill
  launch-kill r rest s = elim (Option-cases (replayed s.proxy.server.max_body r.body)) [
    | inl unread ↦
        ap (λ o. (launched rates rest s o).proxy.server.kill) (launch-none rates r s.proxy unread)
    | inr (b, read) ↦
        ap (λ o. (launched rates rest s o).proxy.server.kill) (launch-some rates r s.proxy b read)
  ]

  request-Remembers :
      {path : Bytes} {s t : Requests rates} (st : RequestStep rates s t)
      → IsTrueRequest st
      → Remembers file path s.proxy.server.kill
      → Remembers file path t.proxy.server.kill
  unfolding end_shadow end_primary capture_primary file_capture
  request-Remembers {path} {s} (arrive now exists draw r e) true_ h = rw e (
      Asked-Remembers now exists true_ (inr (mirror-kill rates now exists draw r.method s.proxy)) h)
  request-Remembers {path} {s} (read_body l r rest q e) _ h = rw (e, launch-kill r (l ++ rest) s) h
  request-Remembers (shadow_done now replace l f rest none q e) _ h = rw e h
  request-Remembers (shadow_done now replace l f rest (some a) q e) _ h = rw e h
  request-Remembers (primary_done now replace l f rest a q e) _ h = rw e h
  request-Remembers (primary_failed l f rest q e) _ h = rw e h
  request-Remembers (sweeper now e) _ h = rw e h
  request-Remembers (consumer e) _ h = rw e h

module _ (rates : Rates) (rt : Runtime) (ups : Upstreams) (file : Time → Bool) where
  -- Every step that asks the switch finds the file as it is at that time.
  abbrev pub IsTrueStep : {w w' : Program rates} → Step rates rt ups w w' → Type 0
  IsTrueStep (served st e) = IsTrue rt file st
  IsTrueStep (routed accepts formats tabs choose m r e) = m.exists ≡ file m.asked_at
  IsTrueStep (proxied mode st asked e) = IsTrueRequest rates file st

  abbrev pub IsTruePath : {w w' : Program rates} → Reach rates rt ups w w' → Type 0
  IsTruePath here = Unit
  IsTruePath (next r st) = IsTruePath r × IsTrueStep st

  Reach-Remembers :
      {path : Bytes} {w w' : Program rates} (reach : Reach rates rt ups w w')
      → IsTruePath reach
      → Remembers file path w.requests.proxy.server.kill
      → Remembers file path w'.requests.proxy.server.kill
  Reach-Remembers here true_ h = h
  Reach-Remembers (next r (served st e)) true_ h =
      rw e (service-Remembers rt file st true_.1 (Reach-Remembers r true_.0 h))
  Reach-Remembers {path} (next {w'} r (routed accepts formats tabs choose m q e)) true_ h =
      let before = Reach-Remembers r true_.0 h in
      rw e (
        serve_cases accepts formats tabs (λ v. Remembers file path v.server.kill) choose m q
          (view rates w').service before
          (service-Remembers rt file {s = view rates w'}
            (capture m.asked_at m.exists m.now m.decode m.replace (posted q) refl) true_.1 before)
          (service-Remembers rt file {s = view rates w'} (ask m.asked_at m.exists (queried q) refl)
            true_.1 before))
  Reach-Remembers (next r (proxied mode st asked e)) true_ h =
      rw e (request-Remembers rates file st true_.1 (Reach-Remembers r true_.0 h))

  begin-Remembers :
      (start : Time) (o : Flags rates) (rs : Ruleset)
      → Remembers file o.kill_file
          (begin rates rt start o (folded rates o) rs).requests.proxy.server.kill
  unfolding begin new_proxy new_server folded
  begin-Remembers start o rs = record { same_path = refl; life = refl; last = inl refl }

  -- In a program with a path for the kill file, whatever has happened in whatever order, under a file
  -- that comes and goes and that every step that asks the switch finds as it is then: once the file
  -- has been there for a second, a request to /captures leaves the buffer as it is, and a request at
  -- the proxy is not mirrored.
  pub kill_file-stops :
      (start : Time) (o : Flags rates) (rs : Ruleset) {w : Program rates}
      (reach : Reach rates rt ups (begin rates rt start o (folded rates o) rs) w)
      (since now later : Time) (decode : Bytes → Option Capture) (replace : Bytes → Bytes → Bytes)
      (r : Request) (draw : rates.Rate) (method : Bytes)
      → IsTruePath reach
      → o.kill_file ≢ []
      → ((u : Time) → since ≤ u → file u ≡ true)
      → since + default_kill_ttl ≤ now
      → ((handle_capture now (file now) later decode replace w.requests.proxy.server r).0.buffer
          ≡ w.requests.proxy.server.buffer)
        × ((mirror rates now (file now) draw method w.requests.proxy).1 ≡ false)
  kill_file-stops start o rs {w} reach since now later decode replace r draw method true_ given
        settled late =
      let h = Reach-Remembers reach true_ (begin-Remembers start o rs) in
      let k = w.requests.proxy.server.kill in
      let on =
        engaged_at-remembered file since now true k (λ off. given (sym h.same_path ∙ off)) h.last
          settled (rw h.life late) in
      (
        handle_capture_stopped now (file now) later decode replace w.requests.proxy.server r on,
        mirror_stopped rates now (file now) draw method w.requests.proxy on,
      )
