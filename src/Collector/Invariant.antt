-- ===== src/Collector/Invariant.antt =====
-- internal/collector/collector.go: the buffer's invariant under its operations.
use mathlib.Core.Path.{subst}
use dark_canary.Prelude.{
  ◌+◌, ◌≤◌, ◌<◌, ◌≡◌, refl, ap, ◌∙◌, ◌⊎◌, inl, inr, true, false, Option, none, some, List, [], ◌∷◌,
  arith, Bytes, bytes_eq, nat_eq, ◌==◌, if◌then◌else◌, leb, length, keep, is_some, All, Distinct,
  lookup, delete, keys, keys-delete-Subseq, delete_head, lookup_head, Bool-cases, skip, Subseq-refl,
}
use dark_canary.Collector.Types.{Time, Pair, path_primary, path_shadow, Stats, Held, Buffer}
use dark_canary.Collector.Buffer.{compact_order, sweep, evict_loop, evict_oldest, remove}
use dark_canary.Collector.Expiry.{
  IsAligned, compact_lem, with_entries, swept, expire_lem, swept-IsAligned, length-survivors-le,
  All-survivors,
}

-- A capture is held under its own correlation id, and names one of the two sides.
abbrev pub IsFiled : Bytes × Held → Type 0
IsFiled (id, p) =
    (p.capture.correl_id ≡ id) × ((p.capture.path ≡ path_primary) ⊎ (p.capture.path ≡ path_shadow))

-- The primary side of a pair comes from the primary path, the shadow side from the shadow path,
-- and both carry the pair's correlation id.
abbrev pub IsMatched : Pair → Type 0
IsMatched p =
    (p.primary.path ≡ path_primary)
    × (p.shadow.path ≡ path_shadow)
    × (p.primary.correl_id ≡ p.correl_id)
    × (p.shadow.correl_id ≡ p.correl_id)

abbrev pub OfPair : Option Pair → Type 0
OfPair none = Unit
OfPair (some p) = IsMatched p

pub record IsValid (b : Buffer) : Type 0 where
  pub aligned : b.order ≡ keys b.pending
  pub distinct : Distinct (keys b.pending)
  pub bounded : length b.pending ≤ b.opts.max_pending
  pub room : 0 < b.opts.max_pending
  pub backlog : length b.pairs ≤ b.opts.buffer
  pub filed : All IsFiled b.pending
  pub matched : All IsMatched b.pairs

pub IsValid-IsAligned : {b : Buffer} → IsValid b → IsAligned b
IsValid-IsAligned v = record { aligned = v.aligned; distinct = v.distinct }

-- The invariant does not look at the counters.
pub with_stats-IsValid : (s : Stats) {b : Buffer} → IsValid b → IsValid (record b { stats = s })
with_stats-IsValid s v = record {
  aligned = v.aligned;
  distinct = v.distinct;
  bounded = v.bounded;
  room = v.room;
  backlog = v.backlog;
  filed = v.filed;
  matched = v.matched;
}

-- Nor does it look into the channel, but for its length and the pairs in it.
pub with_pairs-IsValid :
    (ps : List Pair) {b : Buffer}
    → IsValid b
    → length ps ≤ b.opts.buffer
    → All IsMatched ps
    → IsValid (record b { pairs = ps })
with_pairs-IsValid ps v h m = record {
  aligned = v.aligned;
  distinct = v.distinct;
  bounded = v.bounded;
  room = v.room;
  backlog = h;
  filed = v.filed;
  matched = m;
}

pub swept-IsValid : (now : Time) {b : Buffer} → IsValid b → IsValid (swept now b)
swept-IsValid now {b} v = record {
  aligned = refl;
  distinct = (swept-IsAligned now b (IsValid-IsAligned v)).distinct;
  bounded = omega (arith, length-survivors-le now b.opts b.pending);
  room = v.room;
  backlog = v.backlog;
  filed = All-survivors IsFiled now b.opts b.pending v.filed;
  matched = v.matched;
}

pub sweep-IsValid : (now : Time) {b : Buffer} → IsValid b → IsValid (sweep now b).0
unfolding sweep
sweep-IsValid now {b} v = rw (expire_lem now b (IsValid-IsAligned v)) (swept-IsValid now v)

-- `remove` closed up: the id is gone from the entries and from the order.
pub remove_lem :
    (id : Bytes) (b : Buffer) → IsAligned b → remove id b ≡ with_entries b (delete id b.pending)
unfolding remove
remove_lem id b a = ground (
  arith,
  compact_lem b.pending (delete id b.pending) (keys-delete-Subseq id b.pending) a.distinct,
)

compact_eq :
    (b : Buffer) (m : List (Bytes × Held))
    → b.pending ≡ m
    → keep (λ id. is_some (lookup id m)) b.order ≡ keys m
    → compact_order b ≡ with_entries b m
unfolding compact_order
compact_eq b m e o = rw (e, o)

evict_loop_head :
    (id : Bytes) (ids : List Bytes) (p : Held) (b : Buffer)
    → lookup id b.pending ≡ some p
    → evict_loop (id ∷ ids) b
      ≡ compact_order (record b {
        pending = delete id b.pending;
        stats = record (b.stats) { dropped = b.stats.dropped + 1 };
      })
unfolding evict_loop
evict_loop_head id ids p b h = rw (h, evict_loop)

-- The buffer without its oldest entry, which is counted as dropped.
abbrev pub evicted : Buffer → List (Bytes × Held) → Buffer
evicted b m = record (with_entries b m) {
  stats = record (b.stats) { dropped = b.stats.dropped + 1 };
}

pub evict_oldest_lem :
    (b : Buffer) (id : Bytes) (p : Held) (m : List (Bytes × Held))
    → b.pending ≡ (id, p) ∷ m
    → b.order ≡ id ∷ keys m
    → Distinct (id ∷ keys m)
    → evict_oldest b ≡ evicted b m
unfolding evict_oldest
evict_oldest_lem b id p m e o d =
    ap (λ ids. evict_loop ids b) o
    ∙ evict_loop_head id (keys m) p b (rw e (lookup_head {V = Held} id p m))
    ∙ compact_eq
        (record b {
          pending = delete id b.pending;
          stats = record (b.stats) { dropped = b.stats.dropped + 1 };
        })
        m (rw e (delete_head {V = Held} id p m d.0))
        (rw o (compact_lem ((id, p) ∷ m) m (skip (Subseq-refl (keys m))) d))

pub All-delete {ℓ} :
    (P : Bytes × Held → Type ℓ) (k : Bytes) (m : List (Bytes × Held)) → All P m → All P (delete k m)
unfolding delete
All-delete P k [] h = tt
All-delete P k ((j, v) ∷ m) h =
    elim (j == k) as (λ b. All P (if b then delete k m else (j, v) ∷ delete k m)) [
      | true ↦ All-delete P k m h.1
      | false ↦ (h.0, All-delete P k m h.1)
    ]

-- What a full buffer gives up: its first entry.
abbrev pub made_room : Buffer → Buffer
made_room b = if leb b.opts.max_pending (length b.pending) then evict_oldest b else b

pub made_room_cases :
    (b : Buffer) (m : List (Bytes × Held))
    → b.pending ≡ m
    → IsAligned b
    → 0 < b.opts.max_pending
    → length b.pending ≤ b.opts.max_pending
    → ((made_room b ≡ b) × (length m < b.opts.max_pending))
      ⊎ ((id : Bytes) × (p : Held) × (r : List (Bytes × Held)) × (m ≡ (id, p) ∷ r)
          × (made_room b ≡ evicted b r)
          × (length m ≡ b.opts.max_pending))
made_room_cases b [] e a r h = inl (ground arith, ground arith)
made_room_cases b ((id, p) ∷ m) e a r h =
    elim (Bool-cases (leb b.opts.max_pending (length b.pending))) [
      | inl full ↦ inr (
        id,
        p,
        m,
        refl,
        ground (
          arith,
          evict_oldest_lem b id p m e (a.aligned ∙ ap keys e)
              (subst (λ m'. Distinct (keys m')) e a.distinct),
        ),
        ground arith,
      )
      | inr free ↦ inl (ground arith, ground arith)
    ]
