-- ===== src/Proxy/System.antt =====
-- cmd/dark-canary/proxy.go: requests that are served at the same time, as interleaved steps.
use dark_canary.Prelude.{
  ℕ, ◌+◌, ◌≡◌, Bool, Option, none, some, List, [], ◌∷◌, ◌++◌, Bytes, if◌then◌else◌,
}
use dark_canary.Collector.Types.{Time, Capture}
use dark_canary.Collector.Buffer.{sweep, receive}
use dark_canary.Safety.Config.{Rates}
use dark_canary.Proxy.Mirror.{
  Incoming, Answer, Flight, Proxy, mirror, launch, shadow_capture, primary_capture, end_shadow,
  end_primary,
}

-- The requests that hold a slot and are read, the goroutines that talk to the shadow, and the
-- responses of the primary that are not at their end, for requests that are mirrored; how many
-- requests have come, were handed on without being mirrored, and have ended; and the captures of each
-- side that have been filed.
pub record System (rates : Rates) : Type 0 where
  pub proxy : Proxy rates
  pub holding : List Incoming
  pub shadows : List Flight
  pub primaries : List Flight
  pub arrived : ℕ
  pub plain : ℕ
  pub ended : ℕ
  pub shadow_filed : List Capture
  pub primary_filed : List Capture

module _ (rates : Rates) where
  -- A proxy that has served nothing yet.
  abbrev pub idle : Proxy rates → System rates
  idle p = record {
    proxy = p;
    holding = [];
    shadows = [];
    primaries = [];
    arrived = 0;
    plain = 0;
    ended = 0;
    shadow_filed = [];
    primary_filed = [];
  }

  abbrev pub after_arrival : Time → Bool → rates.Rate → Incoming → System rates → System rates
  after_arrival t exists draw r s =
      let (p, go) = mirror rates t exists draw r.method s.proxy in
      record s {
        proxy = p;
        arrived = s.arrived + 1;
        holding = if go then r ∷ s.holding else s.holding;
        plain = if go then s.plain else s.plain + 1;
      }

  -- What `launch` says, for a request that was held.
  abbrev pub launched : List Incoming → System rates → Proxy rates × Option Flight → System rates
  launched rest s (p, none) = record s { proxy = p; holding = rest; plain = s.plain + 1 }
  launched rest s (p, some f) = record s {
    proxy = p;
    holding = rest;
    shadows = f ∷ s.shadows;
    primaries = f ∷ s.primaries;
  }

  abbrev pub after_launch : Incoming → List Incoming → System rates → System rates
  after_launch r rest s = launched rest s (launch rates r s.proxy)

  abbrev pub after_shadow :
      Time
      → (Bytes → Bytes → Bytes)
      → Flight
      → List Flight
      → Option Answer
      → System rates
      → System rates
  after_shadow now replace f rest a s = record s {
    proxy = end_shadow rates now replace f a s.proxy;
    shadows = rest;
    shadow_filed = elim a [
      | none ↦ s.shadow_filed
      | some b ↦ shadow_capture s.proxy.server.max_body f b ∷ s.shadow_filed
    ];
  }

  abbrev pub after_primary :
      Time → (Bytes → Bytes → Bytes) → Flight → List Flight → Answer → System rates → System rates
  after_primary now replace f rest a s = record s {
    proxy = end_primary rates now replace f a s.proxy;
    primaries = rest;
    ended = s.ended + 1;
    primary_filed = primary_capture s.proxy.server.max_body f a ∷ s.primary_filed;
  }

  -- The primary gives no response.
  abbrev pub after_failure : List Flight → System rates → System rates
  after_failure rest s = record s { primaries = rest; ended = s.ended + 1 }

  abbrev pub after_sweep : Time → System rates → System rates
  after_sweep now s = record s {
    proxy = record (s.proxy) {
      server = record (s.proxy.server) { buffer = (sweep now s.proxy.server.buffer).0 };
    };
  }

  abbrev pub after_receive : System rates → System rates
  after_receive s = record s {
    proxy = record (s.proxy) {
      server = record (s.proxy.server) { buffer = (receive s.proxy.server.buffer).0 };
    };
  }

  pub data Step (s t : System rates) : Type 0 where
    arrive :
        (now : Time) (exists : Bool) (draw : rates.Rate) (r : Incoming)
        → t ≡ after_arrival now exists draw r s
        → Step s t
    read_body :
        (l : List Incoming) (r : Incoming) (rest : List Incoming)
        → s.holding ≡ l ++ r ∷ rest
        → t ≡ after_launch r (l ++ rest) s
        → Step s t
    shadow_done :
        (now : Time) (replace : Bytes → Bytes → Bytes) (l : List Flight) (f : Flight)
        (rest : List Flight) (a : Option Answer)
        → s.shadows ≡ l ++ f ∷ rest
        → t ≡ after_shadow now replace f (l ++ rest) a s
        → Step s t
    primary_done :
        (now : Time) (replace : Bytes → Bytes → Bytes) (l : List Flight) (f : Flight)
        (rest : List Flight) (a : Answer)
        → s.primaries ≡ l ++ f ∷ rest
        → t ≡ after_primary now replace f (l ++ rest) a s
        → Step s t
    primary_failed :
        (l : List Flight) (f : Flight) (rest : List Flight)
        → s.primaries ≡ l ++ f ∷ rest
        → t ≡ after_failure (l ++ rest) s
        → Step s t
    sweeper : (now : Time) → t ≡ after_sweep now s → Step s t
    consumer : t ≡ after_receive s → Step s t

  pub data Reach (s : System rates) : System rates → Type 0 where
    here : Reach s s
    next : {t u : System rates} → Reach s t → Step t u → Reach s u
