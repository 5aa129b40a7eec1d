-- ===== src/Collector/Refinement.antt =====
-- internal/collector/collector.go: the buffer against the queue.
use dark_canary.Prelude.{
  ◌+◌, ◌-◌, ◌≡◌, refl, sym, ap, ◌∙◌, inl, inr, true, false, Option, none, some, List, [], ◌∷◌, ◌++◌,
  arith, Bytes, bytes_eq, ◌==◌, ltb, leb, length, lookup, insert, delete, Bool-cases, Option-cases,
}
use dark_canary.Collector.Types.{Time, Capture, Pair, Stats, Held, Buffer}
use dark_canary.Collector.Buffer.{
  is_malformed, stamp, make_pair, store, meet, file_capture, ingest_locked, try_send, count_drop,
  deliver, ingest,
}
use dark_canary.Collector.Expiry.{IsAligned, expire_lem, with_entries, swept}
use dark_canary.Collector.Invariant.{
  IsValid, IsValid-IsAligned, with_stats-IsValid, swept-IsValid, remove_lem, made_room_cases,
  evicted,
}
use dark_canary.Collector.Ingest.{lookup_rest}
use dark_canary.Collector.Queue.{forget, rest_of, leave, join, hand_over, pair_up, turn_up, accept}

insert_absent :
    (k : Bytes) (v : Held) (m : List (Bytes × Held))
    → lookup k m ≡ none
    → insert k v m ≡ m ++ (k, v) ∷ []
unfolding lookup insert
insert_absent k v [] h = refl
insert_absent k v ((j, w) ∷ m) h = ground (arith, insert_absent k v m)

-- `Ingest` behind its first critical section.
abbrev sent_on : Buffer × Option Pair → Buffer
sent_on (b, none) = b
sent_on (b, some p) = deliver p b

counted_back :
    (s : Stats)
    → record s { dropped = s.dropped + 1; paired = s.paired + 1 - 1 }
      ≡ record s { dropped = s.dropped + 1 }
counted_back s =
    let same : s.paired + 1 - 1 ≡ s.paired = omega arith in
    ap (λ n. record s { dropped = s.dropped + 1; paired = n }) same

-- A pair that is counted and then sent.
deliver-hand_over :
    (p : Pair) (b : Buffer)
    → forget (deliver p (record b { stats = record (b.stats) { paired = b.stats.paired + 1 } }))
      ≡ hand_over p (forget b)
unfolding deliver try_send count_drop hand_over
deliver-hand_over p b = elim (Bool-cases (ltb (length b.pairs) b.opts.buffer)) [
  | inl free ↦ rw free refl
  | inr full ↦ rw full (ap (λ s. record (forget b) { stats = s }) (counted_back b.stats))
]

meet-pair_up :
    (now : Time) (c : Capture) (held : Held) (b : Buffer)
    → IsAligned b
    → forget (sent_on (meet now c held b)) ≡ pair_up now c held (forget b)
unfolding meet pair_up
meet-pair_up now c held b a = elim (Bool-cases (held.capture.path == c.path)) [
  | inl same ↦ rw same refl
  | inr other ↦
      rw (other, remove_lem c.correl_id b a)
        (deliver-hand_over (make_pair c held.capture)
          (with_entries b (delete c.correl_id b.pending)))
]

store-join :
    (now : Time) (c : Capture) (b : Buffer)
    → IsValid b
    → lookup c.correl_id b.pending ≡ none
    → forget (store now c b) ≡ join (c.correl_id, record { capture = c; at = now }) (forget b)
unfolding store join
store-join now c b v absent =
    let held : Held = record { capture = c; at = now } in
    let new_end : List (Bytes × Held) = (c.correl_id, held) ∷ [] in
    elim (made_room_cases b b.pending refl (IsValid-IsAligned v) v.room v.bounded) [
      | inl (same, free) ↦
          let room_left : leb b.opts.max_pending (length b.pending) ≡ false = ground arith in
          rw (same, room_left)
            (ap (λ m. record (forget b) { waiting = m })
              (insert_absent c.correl_id held b.pending absent))
      | inr (id, p, r, e, room, full) ↦
          let no_room : leb b.opts.max_pending (length b.pending) ≡ true = ground arith in
          rw (room, no_room)
            (ap (λ m. record (forget (evicted b r)) { waiting = m })
              (insert_absent c.correl_id held r
                  (lookup_rest c.correl_id (id, p) r (rw (← e) absent))
                ∙ ap (λ m. rest_of m ++ new_end) (sym e)))
    ]

file_capture-turn_up :
    (now : Time) (c : Capture) (b : Buffer)
    → IsValid b
    → forget (sent_on (file_capture now c b)) ≡ turn_up now c (forget b)
unfolding file_capture turn_up
file_capture-turn_up now c b v = elim (Option-cases (lookup c.correl_id b.pending)) [
  | inl absent ↦ rw (absent, file_capture, turn_up) (store-join now c b v absent)
  | inr (held, e) ↦ rw (e, file_capture, turn_up) (meet-pair_up now c held b (IsValid-IsAligned v))
]

ingest_locked-accept :
    (now : Time) (c : Capture) (b : Buffer)
    → IsValid b
    → forget (sent_on (ingest_locked now c b)) ≡ accept now c (forget b)
unfolding ingest_locked accept leave
ingest_locked-accept now c b v =
    let counted : Buffer = record b {
      stats = record (b.stats) { received = b.stats.received + 1 };
    } in
    let ok = with_stats-IsValid counted.stats v in
    elim (Bool-cases (is_malformed c)) [
      | inl bad ↦ rw bad refl
      | inr good ↦
          rw (good, expire_lem now counted (IsValid-IsAligned ok))
            (file_capture-turn_up now (stamp now c) (swept now counted) (swept-IsValid now ok))
    ]

either_sent :
    (r : Buffer × Option Pair)
    → ◌≡◌ {A = Buffer} (elim (r.1) [ none ↦ r.0 | some p ↦ deliver p r.0 ]) (sent_on r)
either_sent (b, none) = refl
either_sent (b, some p) = refl

-- On a buffer with its invariant, `Ingest` does what the queue does.
pub ingest-accept :
    (now : Time) (c : Capture) (b : Buffer)
    → IsValid b
    → forget (ingest now c b) ≡ accept now c (forget b)
unfolding ingest
ingest-accept now c b v =
    ap forget (either_sent (ingest_locked now c b)) ∙ ingest_locked-accept now c b v
