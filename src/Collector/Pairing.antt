-- ===== src/Collector/Pairing.antt =====
-- internal/collector/collector.go: two captures of one request, one from each side.
use dark_canary.Prelude.{
  ◌≢◌, ◌⊎◌, inl, inr, bytes_beq, bytes_beq_iff, ◌+◌, ◌<◌, ◌≡◌, refl, sym, ap, ◌∙◌, false, Option,
  none, some, List, [], ◌∷◌, ◌++◌, arith, Bytes, bytes_eq, bytes_beq_refl, ◌==◌, length, lookup,
  delete, lookup-insert, lookup-delete,
}
use dark_canary.Collector.Types.{
  path_primary, path_shadow, Time, Capture, Pair, Options, Held, Buffer,
}
use dark_canary.Collector.Buffer.{
  is_malformed, stamp, make_pair, store, meet, file_capture, ingest_locked, try_send, deliver,
  ingest,
}
use dark_canary.Collector.Expiry.{IsAligned, survivors, swept, with_entries, expire_lem}
use dark_canary.Collector.Invariant.{
  IsValid, IsValid-IsAligned, with_stats-IsValid, swept-IsValid, remove_lem,
}
use dark_canary.Collector.Ingest.{ingest_locked-IsValid}
use dark_canary.Collector.Counters.{ingest_locked-counts}

-- A sweep brings nothing back, and keeps what is live.
survivors_absent :
    (now : Time) (opts : Options) (k : Bytes) (m : List (Bytes × Held))
    → lookup k m ≡ none
    → lookup k (survivors now opts m) ≡ none
unfolding lookup
survivors_absent now opts k [] h = refl
survivors_absent now opts k ((id, p) ∷ m) h = ground (arith, survivors_absent now opts k m)

survivors_live :
    (now : Time) (opts : Options) (k : Bytes) (p : Held) (m : List (Bytes × Held))
    → lookup k m ≡ some p
    → now < p.at + opts.timeout
    → lookup k (survivors now opts m) ≡ some p
unfolding lookup
survivors_live now opts k p [] h l = absurd (cc)
survivors_live now opts k p ((id, q) ∷ m) h l = ground (arith, survivors_live now opts k p m)

lookup-store :
    (now : Time) (c : Capture) (b : Buffer)
    → lookup c.correl_id (store now c b).pending ≡ some (record { capture = c; at = now })
unfolding store
lookup-store now c b = rw (lookup-insert, bytes_beq_refl c.correl_id) refl

pub stamp_same :
    (now : Time) (c : Capture)
    → ((stamp now c).correl_id ≡ c.correl_id) × ((stamp now c).path ≡ c.path)
unfolding stamp
stamp_same now c = ground arith

abbrev counted : Buffer → Buffer
counted b = record b { stats = record (b.stats) { received = b.stats.received + 1 } }

-- The first critical section on a capture that is not malformed: the sweep, then the capture.
ingest_locked_lem :
    (now : Time) (c : Capture) {b : Buffer}
    → IsValid b
    → is_malformed c ≡ false
    → ingest_locked now c b ≡ file_capture now (stamp now c) (swept now (counted b))
unfolding ingest_locked
ingest_locked_lem now c {b} v good =
    rw
      (
        good,
        expire_lem now (counted b) (IsValid-IsAligned (with_stats-IsValid (counted b).stats v)),
      )
      refl

file_capture_absent :
    (now : Time) (c : Capture) (s : Buffer)
    → lookup c.correl_id s.pending ≡ none
    → file_capture now c s ≡ (store now c s, none)
unfolding file_capture
file_capture_absent now c s h = rw (h, file_capture) refl

file_capture_held :
    (now : Time) (c : Capture) (held : Held) (s : Buffer)
    → lookup c.correl_id s.pending ≡ some held
    → file_capture now c s ≡ meet now c held s
unfolding file_capture
file_capture_held now c held s h = rw (h, file_capture) refl

-- A capture whose id is not held waits.
first_waits :
    (now : Time) (c : Capture) {b : Buffer}
    → IsValid b
    → is_malformed c ≡ false
    → lookup c.correl_id b.pending ≡ none
    → (lookup c.correl_id (ingest_locked now c b).0.pending
        ≡ some (record { capture = stamp now c; at = now }))
      × ((ingest_locked now c b).1 ≡ none)
first_waits now c {b} v good absent =
    let id = (stamp_same now c).0 in
    let gone =
      ap (λ k. lookup k (survivors now b.opts b.pending)) id
      ∙ survivors_absent now b.opts c.correl_id b.pending absent in
    let done =
      ingest_locked_lem now c v good
      ∙ file_capture_absent now (stamp now c) (swept now (counted b)) gone in
    rw (done) (
      ap (λ k. lookup k (store now (stamp now c) (swept now (counted b))).pending) (sym id)
          ∙ lookup-store now (stamp now c) (swept now (counted b)),
      refl,
    )

abbrev after_lock : Buffer × Option Pair → Buffer
after_lock t = elim (t.1) [ none ↦ t.0 | some p ↦ deliver p t.0 ]

ingest-none :
    (now : Time) (c : Capture) (b b' : Buffer)
    → ingest_locked now c b ≡ (b', none)
    → ingest now c b ≡ b'
unfolding ingest
ingest-none now c b b' h = ap after_lock h

ingest-some :
    (now : Time) (c : Capture) (p : Pair) (b b' : Buffer)
    → ingest_locked now c b ≡ (b', some p)
    → ingest now c b ≡ deliver p b'
unfolding ingest
ingest-some now c p b b' h = ap after_lock h

deliver_free :
    (p : Pair) (b : Buffer)
    → length b.pairs < b.opts.buffer
    → deliver p b ≡ record b { pairs = b.pairs ++ p ∷ [] }
unfolding deliver try_send
deliver_free p b h = ground arith

-- The buffer after the other side has come.
abbrev paired : Time → Capture → Buffer → Buffer
paired now c s = record (with_entries s (delete c.correl_id s.pending)) {
  stats = record (s.stats) { paired = s.stats.paired + 1 };
}

meet_other :
    (now : Time) (c : Capture) (held : Held) (s : Buffer)
    → IsAligned s
    → (held.capture.path == c.path) ≡ false
    → meet now c held s ≡ (paired now c s, some (make_pair c held.capture))
unfolding meet
meet_other now c held s a other = rw (other, remove_lem c.correl_id s a) refl

-- The other side of a capture that is held and live: the pair goes into the channel.
second_pairs :
    (now : Time) (c : Capture) (held : Held) {b : Buffer}
    → IsValid b
    → is_malformed c ≡ false
    → lookup c.correl_id b.pending ≡ some held
    → now < held.at + b.opts.timeout
    → (held.capture.path == c.path) ≡ false
    → length b.pairs < b.opts.buffer
    → ((ingest now c b).pairs ≡ b.pairs ++ make_pair (stamp now c) held.capture ∷ [])
      × (lookup c.correl_id (ingest now c b).pending ≡ none)
second_pairs now c held {b} v good e live other free =
    let (id, path) = stamp_same now c in
    let s = swept now (counted b) in
    let ok = swept-IsValid now (with_stats-IsValid (counted b).stats v) in
    let found =
      ap (λ k. lookup k s.pending) id
      ∙ survivors_live now b.opts c.correl_id held b.pending e live in
    let met =
      ingest_locked_lem now c v good
      ∙ file_capture_held now (stamp now c) held s found
      ∙ meet_other now (stamp now c) held s (IsValid-IsAligned ok)
          (ap (λ q. held.capture.path == q) path ∙ other) in
    let sent = ingest-some now c _ b _ met ∙ deliver_free _ (paired now (stamp now c) s) free in
    rw sent (
      refl,
      ap (λ k. lookup c.correl_id (delete k s.pending)) id
          ∙ ground
              (arith, lookup-delete c.correl_id c.correl_id s.pending, bytes_beq_refl c.correl_id),
    )

-- The other side of a capture that waits makes a pair with it.
ingest_twice :
    (t1 t2 : Time) (c1 c2 : Capture) {b : Buffer}
    → IsValid b
    → is_malformed c1 ≡ false
    → is_malformed c2 ≡ false
    → c2.correl_id ≡ c1.correl_id
    → (c1.path == c2.path) ≡ false
    → lookup c1.correl_id b.pending ≡ none
    → t2 < t1 + b.opts.timeout
    → length b.pairs < b.opts.buffer
    → ((ingest t2 c2 (ingest t1 c1 b)).pairs
        ≡ b.pairs ++ make_pair (stamp t2 c2) (stamp t1 c1) ∷ [])
      × (lookup c2.correl_id (ingest t2 c2 (ingest t1 c1 b)).pending ≡ none)
ingest_twice t1 t2 c1 c2 {b} v good1 good2 id other absent live free =
    let (waits, alone) = first_waits t1 c1 v good1 absent in
    let b1 = (ingest_locked t1 c1 b).0 in
    let one = ingest-none t1 c1 b b1 (ap (λ (o : Option Pair). (b1, o)) alone) in
    let (same, opts, _, _) = ingest_locked-counts t1 c1 v in
    let (pairs, gone) =
      second_pairs t2 c2 (record { capture = stamp t1 c1; at = t1 })
        (ingest_locked-IsValid t1 c1 v).0 good2 (ap (λ k. lookup k b1.pending) id ∙ waits)
        (rw opts live) (ap (λ q. q == c2.path) (stamp_same t1 c1).1 ∙ other)
        (rw (same, opts) free) in
    rw one
      (pairs ∙ ap (λ (l : List Pair). l ++ make_pair (stamp t2 c2) (stamp t1 c1) ∷ []) same, gone)

good_side :
    (c : Capture)
    → c.correl_id ≢ []
    → (c.path ≡ path_primary) ⊎ (c.path ≡ path_shadow)
    → is_malformed c ≡ false
unfolding is_malformed
good_side c id side = ground (
  arith,
  bytes_beq_iff c.correl_id [],
  bytes_beq_iff c.path path_primary,
  bytes_beq_iff c.path path_shadow,
)

-- The pair of a primary and a shadow capture.
abbrev pub pair_of : Capture → Capture → Pair
pair_of p s = record { correl_id = p.correl_id; primary = p; shadow = s }

other_side : (path_primary == path_shadow) ≡ false
unfolding bytes_beq
other_side = refl

far_side : (path_shadow == path_primary) ≡ false
unfolding bytes_beq
far_side = refl

make_pair-primary : (c held : Capture) → c.path ≡ path_primary → make_pair c held ≡ pair_of c held
unfolding make_pair
make_pair-primary c held e = ground (arith, bytes_beq_iff c.path path_primary)

make_pair-shadow :
    (c held : Capture)
    → c.path ≡ path_shadow
    → c.correl_id ≡ held.correl_id
    → make_pair c held ≡ pair_of held c
unfolding make_pair bytes_beq
make_pair-shadow c held e id =
    rw (ap (λ q. q == path_primary) e) (ap (λ k. record (pair_of held c) { correl_id = k }) id)

-- On a buffer with the invariant: the primary and the shadow capture of one request, with an id that
-- is not empty, each within the timeout of the other, with no capture held under their id and room in the channel: whichever comes first, the same pair goes
-- into the channel, each capture on its own side, and nothing is held under the id any more.
pub ingest-pairs :
    (tp ts : Time) (p s : Capture) {b : Buffer}
    → IsValid b
    → p.path ≡ path_primary
    → s.path ≡ path_shadow
    → p.correl_id ≢ []
    → s.correl_id ≡ p.correl_id
    → lookup p.correl_id b.pending ≡ none
    → tp < ts + b.opts.timeout
    → ts < tp + b.opts.timeout
    → length b.pairs < b.opts.buffer
    → ((ingest ts s (ingest tp p b)).pairs ≡ b.pairs ++ pair_of (stamp tp p) (stamp ts s) ∷ [])
      × ((ingest tp p (ingest ts s b)).pairs ≡ b.pairs ++ pair_of (stamp tp p) (stamp ts s) ∷ [])
      × (lookup p.correl_id (ingest ts s (ingest tp p b)).pending ≡ none)
      × (lookup p.correl_id (ingest tp p (ingest ts s b)).pending ≡ none)
ingest-pairs tp ts p s {b} v primary shadow id same absent lp ls free =
    let good_p = good_side p id (inl primary) in
    let good_s = good_side s (rw same id) (inr shadow) in
    let (idp, pathp) = stamp_same tp p in
    let (ids, paths) = stamp_same ts s in
    let (first, gone) =
      ingest_twice tp ts p s v good_p good_s same (rw (primary, shadow) other_side) absent ls
        free in
    let (second, gone') =
      ingest_twice ts tp s p v good_s good_p (sym same) (rw (primary, shadow) far_side)
        (rw same absent) lp free in
    let one = make_pair-shadow (stamp ts s) (stamp tp p) (paths ∙ shadow) (ids ∙ same ∙ sym idp) in
    let two = make_pair-primary (stamp tp p) (stamp ts s) (pathp ∙ primary) in
    (
      first ∙ ap (λ q. b.pairs ++ q ∷ []) one,
      second ∙ ap (λ q. b.pairs ++ q ∷ []) two,
      ap (λ k. lookup k (ingest ts s (ingest tp p b)).pending) (sym same) ∙ gone,
      gone',
    )
