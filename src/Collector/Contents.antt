-- ===== src/Collector/Contents.antt =====
-- internal/collector/collector.go: what the captures stored by `Ingest` have in common.
use dark_canary.Prelude.{
  All-insert, ◌+◌, ◌≡◌, refl, inl, inr, Option, none, some, List, [], ◌∷◌, arith, Bytes, bytes_eq,
  ◌==◌, ltb, length, All, All-append, Bool-cases, Option-cases, lookup,
}
use mathlib.Core.Path.{subst}
use dark_canary.Collector.Types.{Time, Capture, Pair, path_primary, Held, Buffer}
use dark_canary.Collector.Buffer.{
  is_malformed, stamp, make_pair, store, meet, file_capture, ingest_locked, try_send, deliver,
  ingest,
}
use dark_canary.Collector.Expiry.{IsAligned, expire_lem, All-survivors}
use dark_canary.Collector.Invariant.{
  IsValid, IsValid-IsAligned, swept-IsValid, with_stats-IsValid, remove_lem, All-delete,
  made_room_cases,
}

module _ (P : Capture → Type 0) where
  abbrev pub EntryHolds : Bytes × Held → Type 0
  EntryHolds e = P e.1.capture

  abbrev pub PairHolds : Pair → Type 0
  PairHolds p = P p.primary × P p.shadow

  abbrev pub OptionHolds : Option Pair → Type 0
  OptionHolds none = Unit
  OptionHolds (some p) = PairHolds p

  -- Every capture of the buffer, held or in a pair, has the property.
  abbrev pub Contains : Buffer → Type 0
  Contains b = All EntryHolds b.pending × All PairHolds b.pairs

  store-Contains :
      (now : Time) (c : Capture) {b : Buffer}
      → IsValid b
      → P c
      → Contains b
      → Contains (store now c b)
  unfolding store
  store-Contains now c {b} v p (held, pairs) =
      elim (made_room_cases b b.pending refl (IsValid-IsAligned v) v.room v.bounded) [
        | inl (same, _) ↦ rw same (All-insert EntryHolds c.correl_id _ b.pending p held, pairs)
        | inr (id, q, r, e, room, _) ↦
            rw room
              (All-insert EntryHolds c.correl_id _ r p (subst (All EntryHolds) e held).1, pairs)
      ]

  lookup-EntryHolds :
      (k : Bytes) {v : Held} (m : List (Bytes × Held))
      → All EntryHolds m
      → lookup k m ≡ some v
      → P v.capture
  unfolding lookup
  lookup-EntryHolds k [] h e = absurd (cc)
  lookup-EntryHolds k {v} ((j, w) ∷ m) h e = elim (Bool-cases (j == k)) [
    | inl same ↦ let found : w ≡ v = ground arith in subst (λ (x : Held). P x.capture) found h.0
    | inr other ↦ lookup-EntryHolds k {v = v} m h.1 (ground arith)
  ]

  make_pair-PairHolds : (c held : Capture) → P c → P held → PairHolds (make_pair c held)
  unfolding make_pair
  make_pair-PairHolds c held p q = elim (Bool-cases (c.path == path_primary)) [
    | inl first ↦ rw first (p, q)
    | inr second ↦ rw second (q, p)
  ]

  meet-Contains :
      (now : Time) (c : Capture) (held : Held) {b : Buffer}
      → IsAligned b
      → P c
      → P held.capture
      → Contains b
      → Contains (meet now c held b).0 × OptionHolds (meet now c held b).1
  unfolding meet
  meet-Contains now c held {b} a p q h = elim (Bool-cases (held.capture.path == c.path)) [
    | inl same ↦ rw same ((All-insert EntryHolds c.correl_id _ b.pending p h.0, h.1), tt)
    | inr other ↦
        rw (other, remove_lem c.correl_id b a)
          (
            (All-delete EntryHolds c.correl_id b.pending h.0, h.1),
            make_pair-PairHolds c held.capture p q,
          )
  ]

  file_capture-Contains :
      (now : Time) (c : Capture) {b : Buffer}
      → IsValid b
      → P c
      → Contains b
      → Contains (file_capture now c b).0 × OptionHolds (file_capture now c b).1
  unfolding file_capture
  file_capture-Contains now c {b} v p h = elim (Option-cases (lookup c.correl_id b.pending)) [
    | inl absent ↦ rw (absent, file_capture) (store-Contains now c v p h, tt)
    | inr (held, e) ↦
        rw (e, file_capture)
          (meet-Contains now c held (IsValid-IsAligned v) p
            (lookup-EntryHolds c.correl_id b.pending h.0 e) h)
  ]

  deliver-Contains : (p : Pair) (b : Buffer) → PairHolds p → Contains b → Contains (deliver p b)
  unfolding deliver try_send
  deliver-Contains p b q h = elim (Bool-cases (ltb (length b.pairs) b.opts.buffer)) [
    | inl free ↦ rw free (h.0, All-append PairHolds b.pairs (p ∷ []) h.1 (q, tt))
    | inr full ↦ rw full h
  ]

  sent-Contains :
      (b : Buffer) (o : Option Pair)
      → Contains b
      → OptionHolds o
      → Contains (elim o [ none ↦ b | some p ↦ deliver p b ])
  sent-Contains b none h q = h
  sent-Contains b (some p) h q = deliver-Contains p b q h

  ingest_locked-Contains :
      (now : Time) (c : Capture) {b : Buffer}
      → IsValid b
      → P (stamp now c)
      → Contains b
      → Contains (ingest_locked now c b).0 × OptionHolds (ingest_locked now c b).1
  unfolding ingest_locked
  ingest_locked-Contains now c {b} v p h =
      let counted : Buffer = record b {
        stats = record (b.stats) { received = b.stats.received + 1 };
      } in
      let ok = with_stats-IsValid counted.stats v in
      elim (Bool-cases (is_malformed c)) [
        | inl bad ↦ rw bad (h, tt)
        | inr good ↦
            rw (good, expire_lem now counted (IsValid-IsAligned ok))
              (file_capture-Contains now (stamp now c) (swept-IsValid now ok) p
                (All-survivors EntryHolds now b.opts b.pending h.0, h.1))
      ]

  -- What holds of the stamped capture and of all captures of the buffer holds of all afterwards.
  pub ingest-Contains :
      (now : Time) (c : Capture) {b : Buffer}
      → IsValid b
      → P (stamp now c)
      → Contains b
      → Contains (ingest now c b)
  unfolding ingest
  ingest-Contains now c {b} v p h =
      let (kept, sent) = ingest_locked-Contains now c v p h in
      sent-Contains (ingest_locked now c b).0 (ingest_locked now c b).1 kept sent
