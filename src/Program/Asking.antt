-- ===== src/Program/Asking.antt =====
-- cmd/dark-canary/main.go, proxy.go and internal/safety/safety.go: what asks the kill switch, and
-- what its answer stops.
use dark_canary.Prelude.{
  ◌+◌, ◌*◌, ◌≡◌, refl, ◌⊎◌, inl, inr, Bool, true, false, not, ◌&&◌, Option, arith, Bytes, codes,
  nat_eq, bytes_eq, ◌==◌, take, Bool-cases, Option-cases,
}
use dark_canary.Collector.Types.{Time, Capture}
use dark_canary.Safety.Config.{Rates}
use dark_canary.Safety.KillSwitch.{KillSwitch, engaged_at}
use dark_canary.Server.Capturing.{
  read_limit, Server, Request, is_read, authorised, admit, read_capture, handle_capture,
}
use dark_canary.Proxy.Mirror.{Proxy, take_slot, mirror}

-- The switch is as it was, or has been asked.
abbrev pub Asked : Time → Bool → KillSwitch → KillSwitch → Type 0
Asked t exists k k' = (k' ≡ k) ⊎ (k' ≡ (engaged_at t exists k).0)

admit-kill :
    (now : Time) (replace : Bytes → Bytes → Bytes) (s : Server) (c : Capture)
    → (admit now replace s c).0.kill ≡ s.kill
unfolding admit
admit-kill now replace s c = elim (Bool-cases (s.reads_only && not (is_read c.method))) [
  | inl refused ↦ rw refused refl
  | inr let_in ↦ rw let_in refl
]

read_capture-kill :
    (now : Time) (decode : Bytes → Option Capture) (replace : Bytes → Bytes → Bytes) (s : Server)
    (r : Request)
    → (read_capture now decode replace s r).0.kill ≡ s.kill
unfolding read_capture
read_capture-kill now decode replace s r = elim (Option-cases (r.body)) [
  | inl unread ↦ rw (unread, read_capture) refl
  | inr (b, e) ↦ elim (Option-cases (decode (take (read_limit (s.max_body * 2 + 1024)) b))) [
    | inl bad ↦ rw (e, read_capture, bad) refl
    | inr (c, good) ↦ rw (e, read_capture, good) (admit-kill now replace s c)
  ]
]

pub handle_capture-Asked :
    (asked_at : Time) (exists : Bool) (now : Time) (decode : Bytes → Option Capture)
    (replace : Bytes → Bytes → Bytes) (s : Server) (r : Request)
    → Asked asked_at exists s.kill (handle_capture asked_at exists now decode replace s r).0.kill
unfolding handle_capture
handle_capture-Asked asked_at exists now decode replace s r =
    let (kill, on) = engaged_at asked_at exists s.kill in
    elim (Bool-cases (authorised s r)) [
      | inr out ↦ rw out (inl refl)
      | inl known ↦ rw known (elim (Bool-cases (r.method == codes "POST")) [
        | inr other ↦ rw other (inl refl)
        | inl post ↦ rw post (elim (Bool-cases on) [
          | inl stopped ↦ rw stopped (inr refl)
          | inr running ↦
              rw running (inr (read_capture-kill now decode replace (record s { kill = kill }) r))
        ])
      ])
    ]

-- The switch engaged, nothing gets into the buffer.
pub handle_capture_stopped :
    (asked_at : Time) (exists : Bool) (now : Time) (decode : Bytes → Option Capture)
    (replace : Bytes → Bytes → Bytes) (s : Server) (r : Request)
    → (engaged_at asked_at exists s.kill).1 ≡ true
    → (handle_capture asked_at exists now decode replace s r).0.buffer ≡ s.buffer
unfolding handle_capture
handle_capture_stopped asked_at exists now decode replace s r on =
    elim (Bool-cases (authorised s r)) [
      | inr out ↦ rw out refl
      | inl known ↦ rw known (elim (Bool-cases (r.method == codes "POST")) [
        | inr other ↦ rw other refl
        | inl post ↦ rw (post, on) refl
      ])
    ]

module _ (rates : Rates) where
  pub mirror-kill :
      (now : Time) (exists : Bool) (draw : rates.Rate) (method : Bytes) (p : Proxy rates)
      → (mirror rates now exists draw method p).0.server.kill
        ≡ (engaged_at now exists p.server.kill).0
  unfolding mirror take_slot
  mirror-kill now exists draw method p = ground arith

  pub mirror_stopped :
      (now : Time) (exists : Bool) (draw : rates.Rate) (method : Bytes) (p : Proxy rates)
      → (engaged_at now exists p.server.kill).1 ≡ true
      → (mirror rates now exists draw method p).1 ≡ false
  unfolding mirror
  mirror_stopped now exists draw method p on = rw on refl
