-- ===== src/Service/Capture.antt =====
-- cmd/dark-canary/main.go: what `handleCapture` does to the server's state.
use dark_canary.Prelude.{
  ℕ, ◌+◌, ◌*◌, ◌<◌, ◌≡◌, refl, ap, ◌⊎◌, inl, inr, Bool, not, ◌&&◌, Option, none, some, [], ◌∷◌,
  arith, Bytes, codes, bytes_eq, nat_eq, ◌==◌, ltb, length, length-append, take, Bool-cases,
  Option-cases,
}
use dark_canary.Collector.Types.{Time, Capture, Pair, Buffer}
use dark_canary.Collector.Buffer.{ingest_locked, try_send, count_drop, deliver, ingest}
use dark_canary.Collector.Invariant.{IsValid}
use dark_canary.Collector.Counters.{option_list, ingest_locked-counts}
use dark_canary.Safety.KillSwitch.{KillSwitch, engaged_at}
use dark_canary.Server.Capturing.{
  read_limit, Server, Request, is_read, authorised, cleaned, admit, read_capture, handle_capture,
}
use dark_canary.Server.Outcomes.{sent}

-- The state is left alone but for the kill switch, or one capture is filed.
abbrev pub Files : Time → Server → Server → Type 0
Files now s s' =
    ((kill : KillSwitch) × (s' ≡ record s { kill = kill }))
    ⊎ ((kill : KillSwitch) × (c : Capture) × (s'
          ≡ record s { kill = kill; buffer = ingest now c s.buffer }))

admit-Files :
    (now : Time) (replace : Bytes → Bytes → Bytes) (s : Server) (kill : KillSwitch) (c : Capture)
    → Files now s (admit now replace (record s { kill = kill }) c).0
unfolding admit
admit-Files now replace s kill c = elim (Bool-cases (s.reads_only && not (is_read c.method))) [
  | inl refused ↦ rw refused (inl (kill, refl))
  | inr let_in ↦ rw let_in (inr (kill, cleaned replace (record s { kill = kill }) c, refl))
]

read_capture-Files :
    (now : Time) (decode : Bytes → Option Capture) (replace : Bytes → Bytes → Bytes) (s : Server)
    (kill : KillSwitch) (r : Request)
    → Files now s (read_capture now decode replace (record s { kill = kill }) r).0
unfolding read_capture
read_capture-Files now decode replace s kill r = elim (Option-cases (r.body)) [
  | inl unread ↦ rw (unread, read_capture) (inl (kill, refl))
  | inr (b, e) ↦ elim (Option-cases (decode (take (read_limit (s.max_body * 2 + 1024)) b))) [
    | inl bad ↦ rw (e, read_capture, bad) (inl (kill, refl))
    | inr (c, good) ↦ rw (e, read_capture, good) (admit-Files now replace s kill c)
  ]
]

pub handle_capture-Files :
    (asked_at : Time) (exists : Bool) (now : Time) (decode : Bytes → Option Capture)
    (replace : Bytes → Bytes → Bytes) (s : Server) (r : Request)
    → Files now s (handle_capture asked_at exists now decode replace s r).0
unfolding handle_capture
handle_capture-Files asked_at exists now decode replace s r =
    let (kill, on) = engaged_at asked_at exists s.kill in
    elim (Bool-cases (authorised s r)) [
      | inr out ↦ rw out (inl (s.kill, refl))
      | inl known ↦ rw known (elim (Bool-cases (r.method == codes "POST")) [
        | inr other ↦ rw other (inl (s.kill, refl))
        | inl post ↦ rw post (elim (Bool-cases on) [
          | inl stopped ↦ rw stopped (inl (kill, refl))
          | inr running ↦ rw running (read_capture-Files now decode replace s kill r)
        ])
      ])
    ]

deliver-paired :
    (p : Pair) (b : Buffer)
    → 0 < b.stats.paired
    → (deliver p b).stats.paired + length b.pairs + 1 ≡ b.stats.paired + length (deliver p b).pairs
unfolding deliver try_send count_drop
deliver-paired p b h = elim (Bool-cases (ltb (length b.pairs) b.opts.buffer)) [
  | inl free ↦ rw free (omega (arith, length-append b.pairs (p ∷ [])))
  | inr full ↦ rw full (omega (arith, h))
]

sent-paired :
    (b : Buffer) (o : Option Pair) (before : ℕ)
    → b.stats.paired ≡ before + length (option_list o)
    → (sent b o).stats.paired + length b.pairs ≡ before + length (sent b o).pairs
sent-paired b none before h = omega (arith, h)
sent-paired b (some p) before h = omega (arith, h, deliver-paired p b (omega (arith, h)))

-- A pair that is counted is in the channel.
pub ingest-paired :
    (now : Time) (c : Capture) {b : Buffer}
    → IsValid b
    → (ingest now c b).stats.paired + length b.pairs
      ≡ b.stats.paired + length (ingest now c b).pairs
unfolding ingest
ingest-paired now c {b} v =
    let (pairs, _, _, paired) = ingest_locked-counts now c v in
    let delivered =
      sent-paired (ingest_locked now c b).0 (ingest_locked now c b).1 b.stats.paired paired in
    omega (arith, ap length pairs, delivered)
