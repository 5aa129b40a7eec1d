-- ===== src/Collector/Ingest.antt =====
-- internal/collector/collector.go: `Ingest`, the invariant, and the account of each capture.
use dark_canary.Prelude.{
  All-insert, ℕ, ◌+◌, ◌*◌, ◌<◌, ◌≡◌, refl, ap, inl, inr, Bool, true, false, not, ◌&&◌, Option, none,
  some, List, [], ◌∷◌, ◌++◌, arith, Bytes, bytes_eq, nat_eq, ◌==◌, if◌then◌else◌, ltb, length, All,
  All-append, Distinct, Distinct-snoc, lookup, insert, keys, bytes_beq_iff, contains-keys,
  keys-insert, length-insert, length-delete, length-append, keys-delete-Subseq, Subseq-Distinct,
  Bool-cases, Option-cases, length-delete_le,
}
use mathlib.Core.Path.{subst}
use dark_canary.Collector.Types.{Time, Capture, Pair, path_primary, path_shadow, Held, Buffer}
use dark_canary.Collector.Buffer.{
  make_pair, is_malformed, stamp, store, meet, ingest_locked, ingest, deliver, file_capture,
}
use dark_canary.Collector.Expiry.{expire_lem, survivors, length-survivors-le}
use dark_canary.Collector.Invariant.{
  IsFiled, IsMatched, OfPair, IsValid, IsValid-IsAligned, swept-IsValid, with_stats-IsValid,
  with_pairs-IsValid, remove_lem, evicted, All-delete, made_room_cases,
}

-- What the counters have accounted for.
abbrev pub weight : Buffer → ℕ
weight b =
    b.stats.discarded + length b.pending + b.stats.expired + 2 * b.stats.paired + b.stats.dropped

abbrev pub entry : Time → Capture → Bytes × Held
entry now c = (c.correl_id, record { capture = c; at = now })

-- The buffer with one more entry at the end.
abbrev added : Time → Capture → Buffer → Buffer
added now c room = record room {
  pending = insert c.correl_id (entry now c).1 room.pending;
  order = room.order ++ c.correl_id ∷ [];
}

added-IsValid :
    (now : Time) (c : Capture) {room : Buffer}
    → IsValid room
    → length room.pending < room.opts.max_pending
    → lookup c.correl_id room.pending ≡ none
    → IsFiled (entry now c)
    → IsValid (added now c room) × (weight (added now c room) ≡ weight room + 1)
added-IsValid now c {room} v free absent filed =
    let grown = keys-insert c.correl_id (entry now c).1 room.pending in
    let size = length-insert c.correl_id (entry now c).1 room.pending in
    (
      record {
        aligned = ground arith;
        distinct = subst Distinct (ground arith) (
            Distinct-snoc (keys room.pending) c.correl_id v.distinct
              (ground (arith, contains-keys c.correl_id room.pending)));
        bounded = ground arith;
        room = v.room;
        backlog = v.backlog;
        filed = All-insert IsFiled c.correl_id _ room.pending filed v.filed;
        matched = v.matched;
      },
      ground arith,
    )

pub lookup_rest :
    (k : Bytes) (e : Bytes × Held) (m : List (Bytes × Held))
    → lookup k (e ∷ m) ≡ none
    → lookup k m ≡ none
unfolding lookup
lookup_rest k (j, v) m h = ground arith

-- A capture with no partner is held; a full buffer drops its oldest entry for it and counts that.
pub store-IsValid :
    (now : Time) (c : Capture) {b : Buffer}
    → IsValid b
    → lookup c.correl_id b.pending ≡ none
    → IsFiled (entry now c)
    → IsValid (store now c b) × (weight (store now c b) ≡ weight b + 1)
unfolding store
store-IsValid now c {b} v absent filed =
    elim (made_room_cases b b.pending refl (IsValid-IsAligned v) v.room v.bounded) [
      | inl (same, free) ↦ rw same (added-IsValid now c v free absent filed)
      | inr (id, p, r, e, room, full) ↦
          let (ok, w) =
            added-IsValid now c {room = evicted b r} (evicted-IsValid id p r e)
              (omega (arith, ap length e)) (lookup_rest c.correl_id (id, p) r (rw (← e) absent))
              filed in
          rw room (ok, omega (arith, ap length e))
    ]
  where
    evicted-IsValid :
        (id : Bytes) (p : Held) (r : List (Bytes × Held))
        → b.pending ≡ (id, p) ∷ r
        → IsValid (evicted b r)
    evicted-IsValid id p r e = record {
      aligned = refl;
      distinct = (subst (λ m. Distinct (keys m)) e v.distinct).1;
      bounded = omega (arith, ap length e, v.bounded);
      room = v.room;
      backlog = v.backlog;
      filed = (subst (All IsFiled) e v.filed).1;
      matched = v.matched;
    }

lookup-All :
    (P : Bytes × Held → Type 0) (k : Bytes) {v : Held} (m : List (Bytes × Held))
    → All P m
    → lookup k m ≡ some v
    → P (k, v)
unfolding lookup
lookup-All P k [] h e = absurd (cc)
lookup-All P k {v} ((j, w) ∷ m) h e = elim (Bool-cases (j == k)) [
  | inl same ↦ subst P (ground (arith, bytes_beq_iff j k)) h.0
  | inr other ↦ lookup-All P k m h.1 (ground arith)
]

-- Two captures of one correlation id and different sides make a matched pair.
make_pair-IsMatched :
    (c : Capture) (held : Held) (now : Time)
    → IsFiled (entry now c)
    → IsFiled (c.correl_id, held)
    → (held.capture.path == c.path) ≡ false
    → IsMatched (make_pair c held.capture)
unfolding make_pair
make_pair-IsMatched c held now f g h =
    ground (arith, bytes_beq_iff held.capture.path c.path, bytes_beq_iff c.path path_primary)

-- A capture meets its partner: a pair, or a replacement that nothing counts.
pub meet-IsValid :
    (now : Time) (c : Capture) (held : Held) {b : Buffer}
    → IsValid b
    → lookup c.correl_id b.pending ≡ some held
    → IsFiled (entry now c)
    → IsValid (meet now c held b).0
      × OfPair (meet now c held b).1
      × (weight (meet now c held b).0 ≡ weight b + (if held.capture.path == c.path then 0 else 1))
unfolding meet
meet-IsValid now c held {b} v e f = elim (Bool-cases (held.capture.path == c.path)) [
  | inl same ↦ rw same (
    record {
      aligned = ground (arith, v.aligned, keys-insert c.correl_id (entry now c).1 b.pending);
      distinct =
          subst Distinct (ground (arith, keys-insert c.correl_id (entry now c).1 b.pending))
            v.distinct;
      bounded = ground (arith, v.bounded, length-insert c.correl_id (entry now c).1 b.pending);
      room = v.room;
      backlog = v.backlog;
      filed = All-insert IsFiled c.correl_id _ b.pending f v.filed;
      matched = v.matched;
    },
    tt,
    ground (arith, length-insert c.correl_id (entry now c).1 b.pending),
  )
  | inr other ↦
      rw (other, remove_lem c.correl_id b (IsValid-IsAligned v))
        (
          record {
            aligned = refl;
            distinct = Subseq-Distinct (keys-delete-Subseq c.correl_id b.pending) v.distinct;
            bounded = omega (arith, v.bounded, length-delete_le {V = Held} c.correl_id b.pending);
            room = v.room;
            backlog = v.backlog;
            filed = All-delete IsFiled c.correl_id b.pending v.filed;
            matched = v.matched;
          },
          make_pair-IsMatched c held now f (lookup-All IsFiled c.correl_id b.pending v.filed e)
              other,
          omega (arith, length-delete {V = Held} c.correl_id b.pending v.distinct (rw e refl)),
        )
]

abbrev pub as_count : Bool → ℕ
as_count true = 1
as_count false = 0

abbrev counted : Buffer → Buffer
counted b = record b { stats = record (b.stats) { received = b.stats.received + 1 } }

stamp-IsFiled :
    (now : Time) (c : Capture) → is_malformed c ≡ false → IsFiled (entry now (stamp now c))
unfolding stamp is_malformed
stamp-IsFiled now c h =
    ground (arith, bytes_beq_iff c.path path_primary, bytes_beq_iff c.path path_shadow)

unfoldable pub meets_itself : Capture → List (Bytes × Held) → Bool
meets_itself c m = elim (lookup c.correl_id m) [
  | none ↦ false
  | some held ↦ held.capture.path == c.path
]

-- A capture of a side that is already held, after the sweep: it replaces the one held.
unfoldable pub is_replacement : Time → Capture → Buffer → Bool
is_replacement now c b =
    not (is_malformed c) && meets_itself (stamp now c) (survivors now b.opts b.pending)

file_capture-IsValid :
    (now : Time) (c : Capture) {b : Buffer}
    → IsValid b
    → IsFiled (entry now c)
    → IsValid (file_capture now c b).0
      × OfPair (file_capture now c b).1
      × (weight (file_capture now c b).0 + as_count (meets_itself c b.pending) ≡ weight b + 1)
unfolding file_capture meets_itself
file_capture-IsValid now c {b} v filed = elim (Option-cases (lookup c.correl_id b.pending)) [
  | inl absent ↦
      let (ok, w) = store-IsValid now c v absent filed in
      rw (absent, file_capture, meets_itself) (ok, tt, omega arith)
  | inr (held, e) ↦
      let (ok, pair, w) = meet-IsValid now c held v e filed in
      rw (e, file_capture, meets_itself) (ok, pair, ground arith)
]

-- The first critical section of `Ingest` on a buffer with the invariant: the invariant holds after
-- it, a pair that it makes is matched, and the capture is accounted for once, unless it replaces one.
pub ingest_locked-IsValid :
    (now : Time) (c : Capture) {b : Buffer}
    → IsValid b
    → IsValid (ingest_locked now c b).0
      × OfPair (ingest_locked now c b).1
      × (weight (ingest_locked now c b).0 + as_count (is_replacement now c b) ≡ weight b + 1)
unfolding ingest_locked is_replacement
ingest_locked-IsValid now c {b} v =
    let ok = with_stats-IsValid (counted b).stats v in
    elim (Bool-cases (is_malformed c)) [
      | inl bad ↦ rw bad (with_stats-IsValid _ v, tt, omega arith)
      | inr good ↦
          let (done, pair, w) =
            file_capture-IsValid now (stamp now c) (swept-IsValid now ok)
              (stamp-IsFiled now c good) in
          rw (good, expire_lem now (counted b) (IsValid-IsAligned ok))
            (done, pair, omega (arith, w, length-survivors-le now b.opts b.pending))
    ]

-- The send of a matched pair keeps the invariant, whether the channel has room for it or not.
pub deliver-IsValid : (p : Pair) {b : Buffer} → IsValid b → IsMatched p → IsValid (deliver p b)
unfolding deliver
deliver-IsValid p {b} v m = elim (Bool-cases (ltb (length b.pairs) b.opts.buffer)) [
  | inl free ↦ rw free (
      with_pairs-IsValid (b.pairs ++ p ∷ []) v
        (ground (arith, length-append {A = Pair} b.pairs (p ∷ [])))
        (All-append IsMatched b.pairs (p ∷ []) v.matched (m, tt)))
  | inr full ↦ rw full (with_stats-IsValid _ v)
]

sent-IsValid :
    (b : Buffer) (o : Option Pair)
    → IsValid b
    → OfPair o
    → IsValid (elim o [ none ↦ b | some p ↦ deliver p b ])
sent-IsValid b none v m = v
sent-IsValid b (some p) v m = deliver-IsValid p v m

-- `Ingest`, run with no other goroutine in between.
pub ingest-IsValid : (now : Time) (c : Capture) {b : Buffer} → IsValid b → IsValid (ingest now c b)
unfolding ingest
ingest-IsValid now c {b} v =
    let (ok, pair, _) = ingest_locked-IsValid now c v in
    sent-IsValid (ingest_locked now c b).0 (ingest_locked now c b).1 ok pair
