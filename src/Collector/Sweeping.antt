-- ===== src/Collector/Sweeping.antt =====
-- internal/collector/collector.go: which captures `Sweep` drops.
use dark_canary.Prelude.{
  ◌+◌, ◌≤◌, ◌<◌, ◌≡◌, refl, sym, ap, ◌∙◌, Bool, false, Option, none, List, [], ◌∷◌, arith, Bytes,
  bytes_eq, bytes_beq_iff, length, keep, All, keys, Distinct, lookup_head, insert_head,
}
use mathlib.Core.Path.{subst}
use dark_canary.Collector.Types.{Time, Capture, Pair, Options, Held, Buffer}
use dark_canary.Collector.Buffer.{
  is_live, is_malformed, stamp, sweep, meet, file_capture, ingest_locked, ingest,
}
use dark_canary.Collector.Expiry.{IsAligned, survivors, swept, expire_lem, length-survivors-le}
use dark_canary.Collector.Invariant.{IsValid, IsValid-IsAligned, with_stats-IsValid}

abbrev pub is_live_entry : Time → Options → Bytes × Held → Bool
is_live_entry now opts e = is_live now opts e.1

-- The entries stand in the order of the times at which they came.
abbrev pub InOrder : List (Bytes × Held) → Type 0
InOrder [] = Unit
InOrder ((id, p) ∷ m) = All (λ e. p.at ≤ e.1.at) m × InOrder m

keep_live :
    (now : Time) (opts : Options) (t : Time) (m : List (Bytes × Held))
    → now < t + opts.timeout
    → All (λ e. t ≤ e.1.at) m
    → keep (is_live_entry now opts) m ≡ m
keep_live now opts t [] h a = refl
keep_live now opts t ((id, p) ∷ m) h a = ground (arith, keep_live now opts t m h a.1)

survivors-keep :
    (now : Time) (opts : Options) (m : List (Bytes × Held))
    → InOrder m
    → survivors now opts m ≡ keep (is_live_entry now opts) m
survivors-keep now opts [] o = refl
survivors-keep now opts ((id, p) ∷ m) o =
    ground (arith, survivors-keep now opts m o.1, keep_live now opts p.at m)

-- While the order lists the ids that are held, once each, and the captures stand in the order of their times, `Sweep` drops exactly those whose timeout
-- has passed, and says how many.
pub sweep-exact :
    (now : Time) (b : Buffer)
    → IsAligned b
    → InOrder b.pending
    → ((sweep now b).0.pending ≡ keep (is_live_entry now b.opts) b.pending)
      × ((sweep now b).1 + length (keep (is_live_entry now b.opts) b.pending) ≡ length b.pending)
unfolding sweep
sweep-exact now b a o = rw (expire_lem now b a) (
  survivors-keep now b.opts b.pending o,
  omega (
    arith,
    ap length (survivors-keep now b.opts b.pending o),
    length-survivors-le now b.opts b.pending,
  ),
)

live_head :
    (now : Time) (opts : Options) (e : Bytes × Held) (m m' : List (Bytes × Held))
    → m' ≡ e ∷ m
    → now < e.1.at + opts.timeout
    → survivors now opts m' ≡ m'
live_head now opts (id, p) m m' e h = rw e (ground arith)

stamp_same :
    (now : Time) (c : Capture)
    → ((stamp now c).correl_id ≡ c.correl_id) × ((stamp now c).path ≡ c.path)
unfolding stamp
stamp_same now c = ground arith

abbrev refreshed : Time → Capture → List (Bytes × Held) → List (Bytes × Held)
refreshed now c m = (c.correl_id, record { capture = c; at = now }) ∷ m

replace_head :
    (now : Time) (c : Capture) (held : Held) (m : List (Bytes × Held)) (s : Buffer)
    → s.pending ≡ (c.correl_id, held) ∷ m
    → held.capture.path ≡ c.path
    → file_capture now c s ≡ (record s { pending = refreshed now c m }, none)
unfolding file_capture meet
replace_head now c held m s e p = ground (
  arith,
  lookup_head {V = Held} c.correl_id held m,
  insert_head c.correl_id held (record { capture = c; at = now }) m,
  bytes_beq_iff held.capture.path c.path,
)

-- After a replacement at the front.
module _ (now : Time) (c : Capture) (held : Held) (m : List (Bytes × Held)) {b : Buffer}
    (v : IsValid b) (e : b.pending ≡ (c.correl_id, held) ∷ m) (good : is_malformed c ≡ false)
    (same : held.capture.path ≡ c.path) (old : now < held.at + b.opts.timeout) where
  counted : Buffer
  counted = record b { stats = record (b.stats) { received = b.stats.received + 1 } }

  replaced : Buffer
  replaced = record (swept now counted) { pending = refreshed now (stamp now c) m }

  ingest_locked_front : ingest_locked now c b ≡ (replaced, none)
  unfolding ingest_locked counted replaced
  ingest_locked_front =
      let aligned = IsValid-IsAligned (with_stats-IsValid counted.stats v) in
      let (id, path) = stamp_same now c in
      let whole = live_head now b.opts (c.correl_id, held) m b.pending e old in
      rw (good, expire_lem now counted aligned)
        (replace_head now (stamp now c) held m (swept now counted) (rw id (whole ∙ e))
          (same ∙ sym path))

  ingest_front : ingest now c b ≡ replaced
  unfolding ingest
  ingest_front =
      rw (ingest_locked_front, ingest) (ap (λ (t : Buffer × Option Pair). t.0) ingest_locked_front)

  replaced-IsAligned : IsAligned replaced
  unfolding replaced counted
  replaced-IsAligned =
      let whole = live_head now b.opts (c.correl_id, held) m b.pending e old in
      record {
        aligned = ap keys (whole ∙ e) ∙ ap (λ id. id ∷ keys m) (sym (stamp_same now c).0);
        distinct =
            subst (λ id. Distinct (id ∷ keys m)) (sym (stamp_same now c).0)
              (subst (λ l. Distinct (keys l)) e v.distinct);
      }

-- On a buffer with the invariant, a capture of the same side that comes for the oldest one held, and
-- before that one's timeout, takes its place with a new time; from
-- then on, until that time runs out, `Sweep` drops nothing, whatever is held behind it.
pub sweep-blocked :
    (now later : Time) (c : Capture) (held : Held) (m : List (Bytes × Held)) {b : Buffer}
    → IsValid b
    → b.pending ≡ (c.correl_id, held) ∷ m
    → is_malformed c ≡ false
    → held.capture.path ≡ c.path
    → now < held.at + b.opts.timeout
    → later < now + b.opts.timeout
    → ((sweep later (ingest now c b)).1 ≡ 0)
      × (length (sweep later (ingest now c b)).0.pending ≡ length b.pending)
unfolding sweep replaced counted
sweep-blocked now later c held m {b} v e g p old new =
    let entry : Bytes × Held =
      ((stamp now c).correl_id, record { capture = stamp now c; at = now }) in
    let still = live_head later b.opts entry m (entry ∷ m) refl new in
    rw
      (
        ingest_front now c held m v e g p old,
        expire_lem later (replaced now c held m v e g p old)
            (replaced-IsAligned now c held m v e g p old),
      )
      (omega (arith, ap length still), omega (arith, ap length still, ap length e))
