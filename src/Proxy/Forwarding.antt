-- ===== src/Proxy/Forwarding.antt =====
-- cmd/dark-canary/proxy.go: what `ServeHTTP` sends to the primary and what it replays to the shadow.
use dark_canary.Prelude.{
  ℕ, zero, suc, ◌+◌, ◌≤◌, ◌<◌, ◌≡◌, refl, sym, ap, ap₂, ◌∙◌, inl, inr, Bool, false, Option, none,
  some, [], ◌∷◌, ◌++◌, arith, Bytes, nat_eq, length, take, Bool-cases, Option-cases, ◌&&◌, ◌||◌,
  ltb,
}
use mathlib.Core.Path.{subst}
use dark_canary.Collector.Types.{Time}
use dark_canary.Safety.Config.{Rates}
use dark_canary.Safety.KillSwitch.{KillSwitch}
use dark_canary.Proxy.Mirror.{
  Stream, Incoming, Flight, Proxy, rest_of, is_unfit, replayed, forwarded, launch, serve_http,
}
use dark_canary.Server.Capturing.{int64_size, read_limit}
use dark_canary.Proxy.Filing.{IsAllowed}
use dark_canary.Proxy.Outcomes.{mirror_cases, launch-none, launch-some}

take-rest : (n : ℕ) (b : Bytes) → take n b ++ rest_of n b ≡ b
unfolding rest_of
take-rest zero b = refl
take-rest (suc n) [] = refl
take-rest (suc n) (c ∷ b) = ap (λ s. c ∷ s) (take-rest n b)

take_all : (n : ℕ) (b : Bytes) → length (take n b) < n → take n b ≡ b
take_all zero b h = absurd (omega arith)
take_all (suc n) [] h = refl
take_all (suc n) (c ∷ b) h = ap (λ s. c ∷ s) (take_all n b (omega arith))

read_limit_lem : (n : ℕ) → n < int64_size → read_limit n ≡ n
unfolding read_limit
read_limit_lem n h = ground arith

-- A body that is fit has been read to its end.
fit_whole :
    (max_body : ℕ) (b : Stream)
    → max_body + 1 < int64_size
    → is_unfit max_body b ≡ false
    → (take (max_body + 1) b.bytes ≡ b.bytes) × (b.fails ≡ false) × (length b.bytes ≤ max_body)
unfolding is_unfit
fit_whole max_body b small h =
    let bound = read_limit_lem (max_body + 1) small in
    let fit : ((b.fails && ltb (length (take (max_body + 1) b.bytes)) (max_body + 1))
          || ltb max_body (length (take (max_body + 1) b.bytes)))
        ≡ false =
      rw bound at h in
    let few : length (take (max_body + 1) b.bytes) < max_body + 1 = ground arith in
    let whole = take_all (max_body + 1) b.bytes few in
    (whole, ground arith, omega (arith, few, ap length whole))

forwarded_lem :
    (max_body : ℕ) (b : Option Stream) → max_body + 1 < int64_size → forwarded max_body b ≡ b
unfolding forwarded
forwarded_lem max_body none small = refl
forwarded_lem max_body (some b) small = elim (Bool-cases (is_unfit max_body b)) [
  | inl unfit ↦ rw unfit (
      ap (λ s. some (record { bytes = s; fails = b.fails }))
        (take-rest (read_limit (max_body + 1)) b.bytes))
  | inr fit ↦
      let (whole, fine, _) = fit_whole max_body b small fit in
      rw (fit, read_limit_lem (max_body + 1) small)
        (ap₂ (λ s f. some (record { bytes = s; fails = f })) whole (sym fine))
]

-- With the largest limit that Go's integers hold, the sum wraps around: nothing is read, no error is
-- met, and the primary is sent an empty body.
forwarded_overflow :
    (max_body : ℕ) (b : Stream)
    → max_body + 1 ≡ int64_size
    → forwarded max_body (some b) ≡ some (record { bytes = []; fails = false })
unfolding forwarded is_unfit read_limit
forwarded_overflow max_body b h = rw h (ground arith)

-- The bytes are the whole body, which has an end.
abbrev pub Carries : Bytes → Option Stream → Type 0
Carries s none = s ≡ []
Carries s (some b) = (s ≡ b.bytes) × (b.fails ≡ false)

replayed_lem :
    (max_body : ℕ) (b : Option Stream) (s : Bytes)
    → max_body + 1 < int64_size
    → replayed max_body b ≡ some s
    → Carries s b × (length s ≤ max_body)
unfolding replayed
replayed_lem max_body none s small h = (ground arith, ground arith)
replayed_lem max_body (some b) s small h = elim (Bool-cases (is_unfit max_body b)) [
  | inl unfit ↦ absurd (ground arith)
  | inr fit ↦
      let (whole, fine, few) = fit_whole max_body b small fit in
      let same : take (max_body + 1) b.bytes ≡ s =
        ground (arith, read_limit_lem (max_body + 1) small) in
      ((sym same ∙ whole, fine), omega (arith, few, ap length same, ap length whole))
]

module _ (rates : Rates) where
  -- The request is not mirrored and holds no slot; or it is, as it came, and holds one.
  abbrev pub IsReplayed : Incoming → Proxy rates → Proxy rates → Option Flight → Type 0
  IsReplayed r p p' none = p'.used ≡ p.used
  IsReplayed r p p' (some f) =
      (p'.used ≡ p.used + 1)
      × (p'.used ≤ p.slots)
      × IsAllowed p.server r.method
      × (f.method ≡ r.method)
      × (f.url ≡ r.url)
      × (f.headers ≡ r.headers)
      × Carries f.body r.body
      × (length f.body ≤ p.server.max_body)

  -- The slot that was taken.
  launched-IsReplayed :
      (r : Incoming) (p : Proxy rates) (kill : KillSwitch)
      → IsAllowed p.server r.method
      → p.used < p.slots
      → p.server.max_body + 1 < int64_size
      → IsReplayed r p
          (launch rates r
            (record p { server = record (p.server) { kill = kill }; used = p.used + 1 })).0
          (launch rates r
            (record p { server = record (p.server) { kill = kill }; used = p.used + 1 })).1
  launched-IsReplayed r p kill allowed free small =
      let taken : Proxy rates = record p {
        server = record (p.server) { kill = kill };
        used = p.used + 1;
      } in
      elim (Option-cases (replayed p.server.max_body r.body)) [
        | inl unread ↦
            subst (λ (o : Proxy rates × Option Flight). IsReplayed r p o.0 o.1)
              (sym (launch-none rates r taken unread)) (omega arith)
        | inr (b, read) ↦
            let (carries, few) = replayed_lem p.server.max_body r.body b small read in
            subst (λ (o : Proxy rates × Option Flight). IsReplayed r p o.0 o.1)
              (sym (launch-some rates r taken b read))
              (refl, omega arith, allowed, refl, refl, refl, carries, few)
      ]

  -- With a body limit below the largest of Go's integers, whatever the kill switch, the draw and the slots decide: the primary is sent the whole body of the
  -- request, with its end or its error, also after the proxy has read a part of it. A request that
  -- is not mirrored holds no slot; one that is holds one of them, was allowed to be mirrored, and is
  -- replayed with its method, URL and headers and with the same body, which is within the limit.
  pub serve_http-IsReplayed :
      (now : Time) (exists : Bool) (draw : rates.Rate) (r : Incoming) (p : Proxy rates)
      → p.server.max_body + 1 < int64_size
      → ((serve_http rates now exists draw r p).2 ≡ r.body)
        × IsReplayed r p
            (serve_http rates now exists draw r p).0
            (serve_http rates now exists draw r p).1
  unfolding serve_http
  serve_http-IsReplayed now exists draw r p small =
      elim (mirror_cases rates now exists draw r.method p) [
        | inl (kill, skipped, e) ↦ rw e (refl, refl)
        | inr (kill, allowed, free, e) ↦ rw e (
          forwarded_lem p.server.max_body r.body small,
          launched-IsReplayed r p kill allowed free small,
        )
      ]
