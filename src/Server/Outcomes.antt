-- ===== src/Server/Outcomes.antt =====
-- cmd/dark-canary/main.go: what a status of the handler says of the request and of the buffer.
use dark_canary.Prelude.{
  ℕ, ◌+◌, ◌*◌, ◌≡◌, ◌≢◌, refl, ◌∙◌, ◌⊎◌, inl, inr, Bool, true, false, not, ◌&&◌, Option, none, some,
  arith, Bytes, codes, nat_eq, bytes_eq, bytes_beq_iff, ◌==◌, ltb, length, take, Bool-cases,
  Option-cases,
}
use dark_canary.Collector.Types.{Time, Capture, Pair, Buffer}
use dark_canary.Collector.Buffer.{ingest_locked, try_send, deliver, ingest}
use dark_canary.Collector.Invariant.{IsValid}
use dark_canary.Collector.Counters.{ingest_locked-counts}
use dark_canary.Safety.KillSwitch.{engaged_at}
use dark_canary.Server.Capturing.{
  read_limit, Server, Request, is_read, authorised, cleaned, admit, read_capture, handle_capture,
}

deliver-received : (p : Pair) (b : Buffer) → (deliver p b).stats.received ≡ b.stats.received
unfolding deliver try_send
deliver-received p b = elim (Bool-cases (ltb (length b.pairs) b.opts.buffer)) [
  | inl free ↦ rw free refl
  | inr full ↦ rw full refl
]

abbrev pub sent : Buffer → Option Pair → Buffer
sent b none = b
sent b (some p) = deliver p b

sent-received : (b : Buffer) (o : Option Pair) → (sent b o).stats.received ≡ b.stats.received
sent-received b none = refl
sent-received b (some p) = deliver-received p b

ingest-received :
    (now : Time) (c : Capture) {b : Buffer}
    → IsValid b
    → (ingest now c b).stats.received ≡ b.stats.received + 1
unfolding ingest
ingest-received now c {b} v =
    sent-received (ingest_locked now c b).0 (ingest_locked now c b).1
    ∙ (ingest_locked-counts now c v).2

-- The capture is accepted and counted, or refused, and the buffer is left alone.
abbrev pub Settles : Server → Server × ℕ → Type 0
Settles s (s', code) =
    ((code ≡ 202) × (s'.buffer.stats.received ≡ s.buffer.stats.received + 1))
    ⊎ ((code ≢ 202) × (s'.buffer ≡ s.buffer))

admit-Settles :
    (now : Time) (replace : Bytes → Bytes → Bytes) (s : Server) (c : Capture)
    → IsValid s.buffer
    → Settles s (admit now replace s c)
unfolding admit
admit-Settles now replace s c v = elim (Bool-cases (s.reads_only && not (is_read c.method))) [
  | inl refused ↦ rw refused (inr (ground arith, refl))
  | inr let_in ↦ rw let_in (inl (refl, ingest-received now (cleaned replace s c) v))
]

read_capture-Settles :
    (now : Time) (decode : Bytes → Option Capture) (replace : Bytes → Bytes → Bytes) (s : Server)
    (r : Request)
    → IsValid s.buffer
    → Settles s (read_capture now decode replace s r)
unfolding read_capture
read_capture-Settles now decode replace s r v = elim (Option-cases (r.body)) [
  | inl unread ↦ rw (unread, read_capture) (inr (ground arith, refl))
  | inr (b, e) ↦ elim (Option-cases (decode (take (read_limit (s.max_body * 2 + 1024)) b))) [
    | inl bad ↦ rw (e, read_capture, bad) (inr (ground arith, refl))
    | inr (c, good) ↦ rw (e, read_capture, good) (admit-Settles now replace s c v)
  ]
]

-- The guards in front of the body.
abbrev pub PassesGuards : Server → Request → Bool → Type 0
PassesGuards s r stopped = (authorised s r ≡ true) × (r.method ≡ codes "POST") × (stopped ≡ false)

with_guards :
    {G : Type 0} (s : Server) (res : Server × ℕ)
    → G
    → Settles s res
    → (G × (res.1 ≡ 202) × (res.0.buffer.stats.received ≡ s.buffer.stats.received + 1))
      ⊎ ((res.1 ≢ 202) × (res.0.buffer ≡ s.buffer))
with_guards s res g (inl (ok, count)) = inl (g, ok, count)
with_guards s res g (inr (other, same)) = inr (other, same)

-- On a buffer with the invariant, the handler answers 202 and has counted one more capture, and then the request was authorised, a
-- POST, and the kill switch not engaged; or it answers something else and leaves the buffer alone.
pub handle_capture-settles :
    (asked_at : Time) (exists : Bool) (now : Time) (decode : Bytes → Option Capture)
    (replace : Bytes → Bytes → Bytes) (s : Server) (r : Request)
    → IsValid s.buffer
    → (PassesGuards s r (engaged_at asked_at exists s.kill).1
        × ((handle_capture asked_at exists now decode replace s r).1 ≡ 202)
        × ((handle_capture asked_at exists now decode replace s r).0.buffer.stats.received
            ≡ s.buffer.stats.received + 1))
      ⊎ (((handle_capture asked_at exists now decode replace s r).1 ≢ 202)
          × ((handle_capture asked_at exists now decode replace s r).0.buffer ≡ s.buffer))
unfolding handle_capture
handle_capture-settles asked_at exists now decode replace s r v =
    let (kill, on) = engaged_at asked_at exists s.kill in
    let s' : Server = record s { kill = kill } in
    elim (Bool-cases (authorised s r)) [
      | inr out ↦ rw out (inr (ground arith, refl))
      | inl known ↦ rw known (elim (Bool-cases (r.method == codes "POST")) [
        | inr other ↦ rw other (inr (ground arith, refl))
        | inl post ↦ rw post (elim (Bool-cases on) [
          | inl stopped ↦ rw stopped (inr (ground arith, refl))
          | inr running ↦ rw running (
              with_guards s (read_capture now decode replace s' r)
                (refl, (bytes_beq_iff r.method (codes "POST")).0 post, refl)
                (read_capture-Settles now decode replace s' r v))
        ])
      ])
    ]
