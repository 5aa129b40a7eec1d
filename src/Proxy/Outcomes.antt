-- ===== src/Proxy/Outcomes.antt =====
-- cmd/dark-canary/proxy.go: what `mirror` and the start of `ServeHTTP` come to.
use dark_canary.Prelude.{
  ℕ, ◌+◌, ◌-◌, ◌%◌, ◌<◌, ◌≡◌, refl, ◌⊎◌, inl, inr, Bool, true, false, not, ◌&&◌, none, some, arith,
  Bytes, ltb, contains, bytes_eq, nat_eq, Bool-cases,
}
use dark_canary.Collector.Types.{Time}
use dark_canary.Safety.Config.{Rates}
use dark_canary.Safety.KillSwitch.{KillSwitch, engaged_at}
use dark_canary.Server.Capturing.{idempotent}
use dark_canary.Proxy.Mirror.{Incoming, Proxy, uint64_size, take_slot, mirror, replayed, launch}
use dark_canary.Proxy.Filing.{IsAllowed}

module _ (rates : Rates) where
  -- `mirror` refuses a request and changes no more than the kill switch and a counter, or takes a
  -- slot for it.
  pub mirror_cases :
      (now : Time) (exists : Bool) (draw : rates.Rate) (method : Bytes) (p : Proxy rates)
      → ((kill : KillSwitch) × (skipped : ℕ) × (mirror rates now exists draw method p
            ≡ (record p { server = record (p.server) { kill = kill }; skipped = skipped }, false)))
        ⊎ ((kill : KillSwitch) × IsAllowed p.server method
            × (p.used < p.slots)
            × (mirror rates now exists draw method p ≡ (
              record p { server = record (p.server) { kill = kill }; used = p.used + 1 },
              true,
            )))
  unfolding mirror take_slot
  mirror_cases now exists draw method p =
      let kill = (engaged_at now exists p.server.kill).0 in
      elim (Bool-cases (engaged_at now exists p.server.kill).1) [
        | inl stopped ↦ inl (kill, p.skipped, rw stopped refl)
        | inr running ↦
            rw running
              (elim (Bool-cases (p.server.reads_only && not (contains method idempotent))) [
                | inl writes ↦ inl (kill, p.skipped, rw writes refl)
                | inr fine ↦
                    rw fine
                      (elim (Bool-cases (rates.below_one p.rate && rates.at_least draw p.rate)) [
                        | inl out ↦ inl (kill, p.skipped, rw out refl)
                        | inr drawn ↦ rw drawn (elim (Bool-cases (ltb p.used p.slots)) [
                          | inl free ↦ inr (kill, ground arith, ground arith, rw free refl)
                          | inr full ↦ inl (kill, p.skipped + 1, rw full refl)
                        ])
                      ])
              ])
      ]

  pub launch-none :
      (r : Incoming) (p : Proxy rates)
      → replayed p.server.max_body r.body ≡ none
      → launch rates r p ≡ (
        record p { n = (p.n + 1) % uint64_size; used = p.used - 1; skipped = p.skipped + 1 },
        none,
      )
  unfolding launch
  launch-none r p h = rw (h, launch) refl

  pub launch-some :
      (r : Incoming) (p : Proxy rates) (b : Bytes)
      → replayed p.server.max_body r.body ≡ some b
      → launch rates r p ≡ (
        record p { n = (p.n + 1) % uint64_size },
        some (record {
          number = (p.n + 1) % uint64_size;
          method = r.method;
          url = r.url;
          headers = r.headers;
          body = b;
        }),
      )
  unfolding launch
  launch-some r p b h = rw (h, launch) refl
