-- ===== src/Collector/Counters.antt =====
-- internal/collector/collector.go: the first critical section of `Ingest`, the counters of captures
-- and pairs, and the channel.
use dark_canary.Prelude.{
  ℕ, ◌+◌, ◌≡◌, refl, inl, inr, Option, none, some, List, [], ◌∷◌, arith, bytes_eq, ◌==◌, length,
  Bool-cases, Option-cases, lookup,
}
use dark_canary.Collector.Types.{Time, Capture, Held, Buffer}
use dark_canary.Collector.Buffer.{is_malformed, stamp, store, meet, file_capture, ingest_locked}
use dark_canary.Collector.Expiry.{IsAligned, expire_lem}
use dark_canary.Collector.Invariant.{
  IsValid, IsValid-IsAligned, swept-IsValid, with_stats-IsValid, remove_lem, made_room_cases,
}

abbrev pub option_list {ℓ} : {A : Type ℓ} → Option A → List A
option_list none = []
option_list (some a) = a ∷ []

-- The channel, the options and the count of captures stay, and `n` more pairs are counted.
abbrev pub Keeps : Buffer → Buffer → ℕ → Type 0
Keeps b b' n =
    (b'.pairs ≡ b.pairs)
    × (b'.opts ≡ b.opts)
    × (b'.stats.received ≡ b.stats.received)
    × (b'.stats.paired ≡ b.stats.paired + n)

store-Keeps : (now : Time) (c : Capture) {b : Buffer} → IsValid b → Keeps b (store now c b) 0
unfolding store
store-Keeps now c {b} v =
    elim (made_room_cases b b.pending refl (IsValid-IsAligned v) v.room v.bounded) [
      | inl (same, _) ↦ rw same (refl, refl, refl, omega arith)
      | inr (id, p, r, e, room, _) ↦ rw room (refl, refl, refl, omega arith)
    ]

meet-Keeps :
    (now : Time) (c : Capture) (held : Held) {b : Buffer}
    → IsAligned b
    → Keeps b (meet now c held b).0 (length (option_list (meet now c held b).1))
unfolding meet
meet-Keeps now c held {b} a = elim (Bool-cases (held.capture.path == c.path)) [
  | inl same ↦ rw same (refl, refl, refl, omega arith)
  | inr other ↦ rw (other, remove_lem c.correl_id b a) (refl, refl, refl, omega arith)
]

file_capture-Keeps :
    (now : Time) (c : Capture) {b : Buffer}
    → IsValid b
    → Keeps b (file_capture now c b).0 (length (option_list (file_capture now c b).1))
unfolding file_capture
file_capture-Keeps now c {b} v = elim (Option-cases (lookup c.correl_id b.pending)) [
  | inl absent ↦ rw (absent, file_capture) (store-Keeps now c v)
  | inr (held, e) ↦ rw (e, file_capture) (meet-Keeps now c held (IsValid-IsAligned v))
]

-- On a buffer with the invariant, the first critical section leaves the channel and the options
-- alone, counts one capture, and counts a pair exactly if it makes one.
pub ingest_locked-counts :
    (now : Time) (c : Capture) {b : Buffer}
    → IsValid b
    → ((ingest_locked now c b).0.pairs ≡ b.pairs)
      × ((ingest_locked now c b).0.opts ≡ b.opts)
      × ((ingest_locked now c b).0.stats.received ≡ b.stats.received + 1)
      × ((ingest_locked now c b).0.stats.paired
          ≡ b.stats.paired + length (option_list (ingest_locked now c b).1))
unfolding ingest_locked
ingest_locked-counts now c {b} v =
    let counted : Buffer = record b {
      stats = record (b.stats) { received = b.stats.received + 1 };
    } in
    let ok = with_stats-IsValid counted.stats v in
    elim (Bool-cases (is_malformed c)) [
      | inl bad ↦ rw bad (refl, refl, refl, omega arith)
      | inr good ↦
          rw (good, expire_lem now counted (IsValid-IsAligned ok))
            (file_capture-Keeps now (stamp now c) (swept-IsValid now ok))
    ]
