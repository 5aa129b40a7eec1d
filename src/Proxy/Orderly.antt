-- ===== src/Proxy/Orderly.antt =====
-- cmd/dark-canary/proxy.go: what holds however the requests interleave.
use dark_canary.Prelude.{
  ◌≡◌, refl, Option, none, some, List, ◌∷◌, ◌++◌, arith, Bytes, length-pick, All-pick, bytes_eq,
}
use dark_canary.Collector.Types.{Time}
use dark_canary.Safety.Config.{Rates}
use dark_canary.Server.Capturing.{Server}
use dark_canary.Proxy.Mirror.{
  Answer, Flight, Proxy, file, shadow_capture, primary_capture, end_shadow, end_primary,
}
use dark_canary.Server.Safe.{IsSafe, sweep-IsSafe, receive-IsSafe}
use dark_canary.Proxy.Filing.{IsAllowed, file-IsSafe}
use dark_canary.Proxy.Numbering.{IsNumbered-file, IsNumbered-drop, IsNumbered-ids}
use dark_canary.Proxy.Number.{read36-base36}
use dark_canary.Proxy.System.{
  System, idle, after_shadow, after_primary, after_failure, Step, arrive, read_body, shadow_done,
  primary_done, primary_failed, sweeper, consumer, Reach, here, next,
}
use dark_canary.Proxy.Mirroring.{
  IsOrderly, idle-IsOrderly, after_arrival-IsOrderly, after_launch-IsOrderly,
}

module _ (rates : Rates) where
  after_shadow-IsOrderly :
      (now : Time) (replace : Bytes → Bytes → Bytes) (l : List Flight) (f : Flight)
      (rest : List Flight) (a : Option Answer) {s : System rates}
      → s.shadows ≡ l ++ f ∷ rest
      → IsOrderly rates s
      → IsOrderly rates (after_shadow rates now replace f (l ++ rest) a s)
  unfolding end_shadow shadow_capture file
  after_shadow-IsOrderly now replace l f rest none {s} e h = record {
    safe = h.safe;
    used = omega (arith, h.used, length-pick l f rest e);
    bounded = omega (arith, h.bounded);
    served = h.served;
    counted = λ few.
        let c = h.counted few in
        record {
          shadows = IsNumbered-drop l f rest e c.shadows;
          primaries = c.primaries;
          drawn = c.drawn;
          shadow_ids = c.shadow_ids;
          primary_ids = c.primary_ids;
        };
    reads = h.reads;
    shadow_reads =
        (All-pick (λ (g : Flight). IsAllowed s.proxy.server g.method) l f rest e h.shadow_reads).1;
    primary_reads = h.primary_reads;
  }
  after_shadow-IsOrderly now replace l f rest (some a) {s} e h =
      let (allowed, others) =
        All-pick (λ (g : Flight). IsAllowed s.proxy.server g.method) l f rest e h.shadow_reads in
      record {
        safe = file-IsSafe now replace (shadow_capture s.proxy.server.max_body f a) allowed h.safe;
        used = omega (arith, h.used, length-pick l f rest e);
        bounded = omega (arith, h.bounded);
        served = h.served;
        counted = λ few.
            let c = h.counted few in
            let filed = shadow_capture s.proxy.server.max_body f a ∷ s.shadow_filed in
            let numbered = IsNumbered-file l f rest e c.shadows _ (read36-base36 f.number) in
            record {
              shadows = numbered;
              primaries = c.primaries;
              drawn = c.drawn;
              shadow_ids = IsNumbered-ids filed numbered;
              primary_ids = c.primary_ids;
            };
        reads = h.reads;
        shadow_reads = others;
        primary_reads = h.primary_reads;
      }

  after_primary-IsOrderly :
      (now : Time) (replace : Bytes → Bytes → Bytes) (l : List Flight) (f : Flight)
      (rest : List Flight) (a : Answer) {s : System rates}
      → s.primaries ≡ l ++ f ∷ rest
      → IsOrderly rates s
      → IsOrderly rates (after_primary rates now replace f (l ++ rest) a s)
  unfolding end_primary primary_capture file
  after_primary-IsOrderly now replace l f rest a {s} e h =
      let (allowed, others) =
        All-pick (λ (g : Flight). IsAllowed s.proxy.server g.method) l f rest e h.primary_reads in
      record {
        safe = file-IsSafe now replace (primary_capture s.proxy.server.max_body f a) allowed h.safe;
        used = h.used;
        bounded = h.bounded;
        served = omega (arith, h.served, length-pick l f rest e);
        counted = λ few.
            let c = h.counted few in
            let filed = primary_capture s.proxy.server.max_body f a ∷ s.primary_filed in
            let numbered = IsNumbered-file l f rest e c.primaries _ (read36-base36 f.number) in
            record {
              shadows = c.shadows;
              primaries = numbered;
              drawn = c.drawn;
              shadow_ids = c.shadow_ids;
              primary_ids = IsNumbered-ids filed numbered;
            };
        reads = h.reads;
        shadow_reads = h.shadow_reads;
        primary_reads = others;
      }

  after_failure-IsOrderly :
      (l : List Flight) (f : Flight) (rest : List Flight) {s : System rates}
      → s.primaries ≡ l ++ f ∷ rest
      → IsOrderly rates s
      → IsOrderly rates (after_failure rates (l ++ rest) s)
  after_failure-IsOrderly l f rest {s} e h = record {
    safe = h.safe;
    used = h.used;
    bounded = h.bounded;
    served = omega (arith, h.served, length-pick l f rest e);
    counted = λ few.
        let c = h.counted few in
        record {
          shadows = c.shadows;
          primaries = IsNumbered-drop l f rest e c.primaries;
          drawn = c.drawn;
          shadow_ids = c.shadow_ids;
          primary_ids = c.primary_ids;
        };
    reads = h.reads;
    shadow_reads = h.shadow_reads;
    primary_reads =
        (All-pick (λ (g : Flight). IsAllowed s.proxy.server g.method) l f rest e h.primary_reads).1;
  }

  -- A step of the server that leaves the requests alone.
  pub with_server-IsOrderly :
      (server : Server) {s : System rates}
      → server.reads_only ≡ s.proxy.server.reads_only
      → IsSafe server
      → IsOrderly rates s
      → IsOrderly rates (record s { proxy = record (s.proxy) { server = server } })
  with_server-IsOrderly server {s} same safe h = record {
    safe = safe;
    used = h.used;
    bounded = h.bounded;
    served = h.served;
    counted = λ few.
        let c = h.counted few in
        record {
          shadows = c.shadows;
          primaries = c.primaries;
          drawn = c.drawn;
          shadow_ids = c.shadow_ids;
          primary_ids = c.primary_ids;
        };
    reads = rw same h.reads;
    shadow_reads = rw same h.shadow_reads;
    primary_reads = rw same h.primary_reads;
  }

  pub Step-IsOrderly : {s t : System rates} → Step rates s t → IsOrderly rates s → IsOrderly rates t
  Step-IsOrderly (arrive now exists draw r e) h =
      rw e (after_arrival-IsOrderly rates now exists draw r h)
  Step-IsOrderly (read_body l r rest q e) h = rw e (after_launch-IsOrderly rates l r rest q h)
  Step-IsOrderly (shadow_done now replace l f rest a q e) h =
      rw e (after_shadow-IsOrderly now replace l f rest a q h)
  Step-IsOrderly (primary_done now replace l f rest a q e) h =
      rw e (after_primary-IsOrderly now replace l f rest a q h)
  Step-IsOrderly (primary_failed l f rest q e) h = rw e (after_failure-IsOrderly l f rest q h)
  Step-IsOrderly (sweeper now e) h = rw e (with_server-IsOrderly _ refl (sweep-IsSafe now h.safe) h)
  Step-IsOrderly (consumer e) h = rw e (with_server-IsOrderly _ refl (receive-IsSafe h.safe) h)

  -- However requests, shadow answers, ends of primary responses, sweeps and receives interleave, from
  -- a proxy on that has mirrored nothing and whose buffer has its invariant and holds only what may be
  -- stored: the same holds of the buffer; every slot that is taken belongs to one mirrored request
  -- that the shadow has not answered, and never more are taken than there are; every request that has
  -- come is being read, was handed on, waits for the primary or has ended; in reads-only mode only
  -- requests that read are mirrored; and, while fewer than 2^64 requests have come, no two captures of
  -- one side that were filed have one correlation id.
  pub Reach-IsOrderly :
      (p : Proxy rates) {s : System rates}
      → IsSafe p.server
      → p.used ≡ 0
      → p.n ≡ 0
      → Reach rates (idle rates p) s
      → IsOrderly rates s
  Reach-IsOrderly p safe used n here = idle-IsOrderly rates p safe used n
  Reach-IsOrderly p safe used n (next r st) = Step-IsOrderly st (Reach-IsOrderly p safe used n r)
