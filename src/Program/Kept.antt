-- ===== src/Program/Kept.antt =====
-- cmd/dark-canary/config.go and main.go: what the flags promise of one capture.
use dark_canary.Prelude.{
  ◌≤◌, ◌≡◌, ◌⊎◌, refl, sym, inl, inr, Bool, true, false, not, ◌||◌, List, [], length, All, All-map,
  Bytes, codes, nat_eq, bytes_eq, bytes_beq_iff, ◌==◌, contains, Bool-cases, arith,
}
use dark_canary.Collector.Types.{Time, Capture, Pair, Held, Buffer}
use dark_canary.Collector.Invariant.{IsMatched}
use dark_canary.Collector.Contents.{Contains, PairHolds}
use dark_canary.Safety.Config.{Rates}
use dark_canary.Server.Capturing.{idempotent, to_upper, is_read}
use dark_canary.Server.Guards.{IsClean}
use dark_canary.Command.Flags.{Flags, split_list}
use dark_canary.Command.Scrubbing.{KeepsSecret, IsScrubbed-KeepsSecret}

-- A method that reads.
pub data IsReading (method : Bytes) : Type 0 where
  get : method ≡ codes "GET" → IsReading method
  head : method ≡ codes "HEAD" → IsReading method
  options : method ≡ codes "OPTIONS" → IsReading method

pub idempotent-IsReading : (m : Bytes) → contains m idempotent ≡ true → IsReading m
unfolding contains
idempotent-IsReading m h = elim (Bool-cases (codes "GET" == m)) [
  | inl e ↦ get (sym ((bytes_beq_iff (codes "GET") m).0 e))
  | inr not_get ↦ elim (Bool-cases (codes "HEAD" == m)) [
    | inl e ↦ head (sym ((bytes_beq_iff (codes "HEAD") m).0 e))
    | inr not_head ↦ elim (Bool-cases (codes "OPTIONS" == m)) [
      | inl e ↦ options (sym ((bytes_beq_iff (codes "OPTIONS") m).0 e))
      | inr not_options ↦ absurd (ground arith)
    ]
  ]
]

is_read-IsReading : (m : Bytes) → is_read m ≡ true → (m ≡ []) ⊎ IsReading (to_upper m)
unfolding is_read
is_read-IsReading m h = elim (Bool-cases (m == [])) [
  | inl e ↦ inl ((bytes_beq_iff m []).0 e)
  | inr e ↦ inr (idempotent-IsReading (to_upper m) (ground arith))
]

module _ {rates : Rates} (o : Flags rates) where
  -- Both bodies have at most the size that the flag allows, every header is no secret or holds the mark
  -- alone, and, unless writes are allowed, the method reads, in any case of letters, or is missing.
  pub record IsKept (c : Capture) : Type 0 where
    pub req_size : length c.req_body ≤ o.max_body
    pub res_size : length c.res_body ≤ o.max_body
    pub req_secrets : All (KeepsSecret o.scrub) c.req_headers
    pub res_secrets : All (KeepsSecret o.scrub) c.res_headers
    pub reads : (o.writes ≡ true) ⊎ (c.method ≡ []) ⊎ IsReading (to_upper c.method)

  -- The test of the server, with what the flags make of its settings.
  abbrev pub IsFlagged : Capture → Type 0
  IsFlagged = IsClean o.max_body (split_list o.scrub) (not o.writes)

  reads_or_writes :
      (writes : Bool) (m : Bytes)
      → (not (not writes) || is_read m) ≡ true
      → (writes ≡ true) ⊎ (m ≡ []) ⊎ IsReading (to_upper m)
  reads_or_writes true m h = inl refl
  reads_or_writes false m h = inr (is_read-IsReading m h)

  IsFlagged-IsKept : (c : Capture) → IsFlagged c → IsKept c
  IsFlagged-IsKept c h = record {
    req_size = h.req_bound;
    res_size = h.res_bound;
    req_secrets = All-map _ _ c.req_headers (IsScrubbed-KeepsSecret o.scrub) h.req_scrubbed;
    res_secrets = All-map _ _ c.res_headers (IsScrubbed-KeepsSecret o.scrub) h.res_scrubbed;
    reads = reads_or_writes o.writes c.method h.reads;
  }

  pair-IsKept : (p : Pair) → PairHolds IsFlagged p → PairHolds IsKept p
  pair-IsKept p h = (IsFlagged-IsKept p.primary h.0, IsFlagged-IsKept p.shadow h.1)

  pub held-IsKept : (b : Buffer) → Contains IsFlagged b → Contains IsKept b
  held-IsKept b h = (
    All-map _ _ b.pending (λ (e : Bytes × Held) k. IsFlagged-IsKept e.1.capture k) h.0,
    All-map _ _ b.pairs pair-IsKept h.1,
  )

  pub compared-IsKept :
      (ps : List (Time × Pair))
      → All (λ (c : Time × Pair). IsMatched c.1 × PairHolds IsFlagged c.1) ps
      → All (λ (c : Time × Pair). IsMatched c.1 × PairHolds IsKept c.1) ps
  compared-IsKept ps = All-map _ _ ps (λ (c : Time × Pair) h. (h.0, pair-IsKept c.1 h.1))
