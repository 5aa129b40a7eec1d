-- ===== src/Proxy/Mirroring.antt =====
-- cmd/dark-canary/proxy.go: the requests of an orderly proxy, up to the start of the shadow's goroutine.
use mathlib.Core.Path.{subst}
use dark_canary.Prelude.{
  ◌+◌, ◌%◌, ◌≤◌, ◌<◌, ◌≡◌, refl, sym, inl, inr, Bool, List, ◌∷◌, ◌++◌, arith, length, length-pick,
  All, All-pick, bytes_eq, Option-cases, Distinct,
}
use dark_canary.Collector.Types.{Time}
use dark_canary.Safety.Config.{Rates}
use dark_canary.Proxy.Mirror.{Incoming, Proxy, uint64_size, replayed}
use dark_canary.Server.Safe.{IsSafe, with_kill-IsSafe}
use dark_canary.Proxy.Filing.{IsAllowed}
use dark_canary.Proxy.Outcomes.{mirror_cases, launch-none, launch-some}
use dark_canary.Proxy.Numbering.{IsNumbered, ids, id_numbers, IsNumbered-next, IsNumbered-later}
use dark_canary.Proxy.System.{System, idle, after_arrival, launched, after_launch}

module _ (rates : Rates) where
  -- The numbers on both sides, with those that the ids of filed captures stand for, and that there
  -- have been no more of them than requests; so the captures of a side have different ids.
  pub record IsCounted (s : System rates) : Type 0 where
    pub shadows : IsNumbered s.proxy.n s.shadows (id_numbers s.shadow_filed)
    pub primaries : IsNumbered s.proxy.n s.primaries (id_numbers s.primary_filed)
    pub drawn : s.proxy.n + length s.holding ≤ s.arrived
    pub shadow_ids : Distinct (ids s.shadow_filed)
    pub primary_ids : Distinct (ids s.primary_filed)

  pub record IsOrderly (s : System rates) : Type 0 where
    -- The buffer has its invariant, and what it holds may be stored.
    pub safe : IsSafe s.proxy.server
    -- A slot is taken exactly by the requests that are read and the goroutines at the shadow.
    pub used : s.proxy.used ≡ length s.holding + length s.shadows
    pub bounded : s.proxy.used ≤ s.proxy.slots
    -- Every request is at one place.
    pub served : s.arrived ≡ length s.holding + s.plain + length s.primaries + s.ended
    -- Until the counter wraps around, no two captures of one side have one correlation id.
    pub counted : s.arrived < uint64_size → IsCounted s
    -- In reads-only mode, only requests that read are mirrored.
    pub reads : All (λ r. IsAllowed s.proxy.server r.method) s.holding
    pub shadow_reads : All (λ f. IsAllowed s.proxy.server f.method) s.shadows
    pub primary_reads : All (λ f. IsAllowed s.proxy.server f.method) s.primaries

  pub idle-IsOrderly :
      (p : Proxy rates) → IsSafe p.server → p.used ≡ 0 → p.n ≡ 0 → IsOrderly (idle rates p)
  idle-IsOrderly p safe used n = record {
    safe = safe;
    used = used;
    bounded = omega (arith, used);
    served = omega arith;
    counted = λ _. record {
      shadows = record { distinct = tt; drawn = tt };
      primaries = record { distinct = tt; drawn = tt };
      drawn = omega (arith, n);
      shadow_ids = tt;
      primary_ids = tt;
    };
    reads = tt;
    shadow_reads = tt;
    primary_reads = tt;
  }

  pub after_arrival-IsOrderly :
      (now : Time) (exists : Bool) (draw : rates.Rate) (r : Incoming) {s : System rates}
      → IsOrderly s
      → IsOrderly (after_arrival rates now exists draw r s)
  after_arrival-IsOrderly now exists draw r {s} h =
      elim (mirror_cases rates now exists draw r.method s.proxy) [
        | inl (kill, skipped, e) ↦ rw e (record {
          safe = with_kill-IsSafe kill h.safe;
          used = h.used;
          bounded = h.bounded;
          served = omega (arith, h.served);
          counted = λ few.
              let c = h.counted (omega (arith, few)) in
              record {
                shadows = c.shadows;
                primaries = c.primaries;
                drawn = omega (arith, c.drawn);
                shadow_ids = c.shadow_ids;
                primary_ids = c.primary_ids;
              };
          reads = h.reads;
          shadow_reads = h.shadow_reads;
          primary_reads = h.primary_reads;
        })
        | inr (kill, allowed, free, e) ↦ rw e (record {
          safe = with_kill-IsSafe kill h.safe;
          used = omega (arith, h.used);
          bounded = omega (arith, free);
          served = omega (arith, h.served);
          counted = λ few.
              let c = h.counted (omega (arith, few)) in
              record {
                shadows = c.shadows;
                primaries = c.primaries;
                drawn = omega (arith, c.drawn);
                shadow_ids = c.shadow_ids;
                primary_ids = c.primary_ids;
              };
          reads = (allowed, h.reads);
          shadow_reads = h.shadow_reads;
          primary_reads = h.primary_reads;
        })
      ]

  pub after_launch-IsOrderly :
      (l : List Incoming) (r : Incoming) (rest : List Incoming) {s : System rates}
      → s.holding ≡ l ++ r ∷ rest
      → IsOrderly s
      → IsOrderly (after_launch rates r (l ++ rest) s)
  after_launch-IsOrderly l r rest {s} e h =
      let shorter = length-pick l r rest e in
      let (allowed, others) =
        All-pick (λ (q : Incoming). IsAllowed s.proxy.server q.method) l r rest e h.reads in
      let n' : s.arrived < uint64_size → (s.proxy.n + 1) % uint64_size ≡ s.proxy.n + 1 =
        λ few. omega (arith, shorter, (h.counted few).drawn, few) in
      elim (Option-cases (replayed s.proxy.server.max_body r.body)) [
        | inl unread ↦
            subst (λ o. IsOrderly (launched rates (l ++ rest) s o))
              (sym (launch-none rates r s.proxy unread))
              (record {
                safe = h.safe;
                used = omega (arith, h.used, shorter);
                bounded = omega (arith, h.bounded);
                served = omega (arith, h.served, shorter);
                counted = λ few.
                    let c = h.counted few in
                    rw (n' few) (record {
                      shadows = IsNumbered-later c.shadows;
                      primaries = IsNumbered-later c.primaries;
                      drawn = omega (arith, c.drawn, shorter);
                      shadow_ids = c.shadow_ids;
                      primary_ids = c.primary_ids;
                    });
                reads = others;
                shadow_reads = h.shadow_reads;
                primary_reads = h.primary_reads;
              })
        | inr (b, read) ↦
            subst (λ o. IsOrderly (launched rates (l ++ rest) s o))
              (sym (launch-some rates r s.proxy b read))
              (record {
                safe = h.safe;
                used = omega (arith, h.used, shorter);
                bounded = h.bounded;
                served = omega (arith, h.served, shorter);
                counted = λ few.
                    let c = h.counted few in
                    rw (n' few) (record {
                      shadows = IsNumbered-next _ refl c.shadows;
                      primaries = IsNumbered-next _ refl c.primaries;
                      drawn = omega (arith, c.drawn, shorter);
                      shadow_ids = c.shadow_ids;
                      primary_ids = c.primary_ids;
                    });
                reads = others;
                shadow_reads = (allowed, h.shadow_reads);
                primary_reads = (allowed, h.primary_reads);
              })
      ]
