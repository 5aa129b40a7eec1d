-- ===== src/Collector/Interleaving.antt =====
-- internal/collector/collector.go: goroutines that call `Ingest`, `Sweep` and receive from `Pairs()`
-- at the same time. Each step is what one goroutine does under the lock, or one channel operation.
use dark_canary.Prelude.{
  ℕ, suc, ◌+◌, ◌≡◌, refl, ap, Option, none, some, List-cases, Bool-cases, inl, inr, List, [], ◌∷◌,
  ◌++◌, arith, if◌then◌else◌, ltb, length, All, All-append, length-append,
}
use mathlib.Core.Path.{subst}
use dark_canary.Collector.Types.{Time, Capture, Pair, Options, Buffer}
use dark_canary.Collector.Buffer.{new, sweep, ingest_locked, try_send, count_drop, receive}
use dark_canary.Collector.Expiry.{length-survivors-le, expire_lem}
use dark_canary.Collector.Invariant.{
  IsMatched, OfPair, IsValid, IsValid-IsAligned, swept-IsValid, with_stats-IsValid,
  with_pairs-IsValid,
}
use dark_canary.Collector.Counters.{option_list, ingest_locked-counts}
use dark_canary.Collector.Ingest.{weight, is_replacement, as_count, ingest_locked-IsValid}

-- The buffer, the pairs that a goroutine is about to send, the number of goroutines that found the
-- channel full and have not counted it yet, what has been received, and two tallies of the past.
pub record System : Type 0 where
  pub buffer : Buffer
  pub sending : List Pair
  pub refused : ℕ
  pub consumed : List Pair
  pub replaced : ℕ
  pub lost : ℕ

abbrev pub start : Options → System
start opts = record {
  buffer = new opts;
  sending = [];
  refused = 0;
  consumed = [];
  replaced = 0;
  lost = 0;
}

abbrev pub after_capture : Time → Capture → System → System
after_capture now c s = record s {
  buffer = (ingest_locked now c s.buffer).0;
  sending = option_list (ingest_locked now c s.buffer).1 ++ s.sending;
  replaced = s.replaced + as_count (is_replacement now c s.buffer);
}

abbrev pub after_send : List Pair → Pair → List Pair → System → System
after_send l p r s = record s {
  buffer = (try_send p s.buffer).0;
  sending = l ++ r;
  refused = if (try_send p s.buffer).1 then s.refused else s.refused + 1;
}

abbrev pub after_count : ℕ → System → System
after_count n s = record s { buffer = count_drop s.buffer; refused = n; lost = s.lost + 1 }

abbrev pub after_sweep : Time → System → System
after_sweep now s = record s { buffer = (sweep now s.buffer).0 }

abbrev pub after_receive : System → System
after_receive s = record s {
  buffer = (receive s.buffer).0;
  consumed = option_list (receive s.buffer).1 ++ s.consumed;
}

pub data Step (s : System) (t : System) : Type 0 where
  capture : (now : Time) (c : Capture) → t ≡ after_capture now c s → Step s t
  send :
      (l : List Pair) (p : Pair) (r : List Pair)
      → s.sending ≡ l ++ p ∷ r
      → t ≡ after_send l p r s
      → Step s t
  count : (n : ℕ) → s.refused ≡ suc n → t ≡ after_count n s → Step s t
  tick : (now : Time) → t ≡ after_sweep now s → Step s t
  consume : t ≡ after_receive s → Step s t

pub data Reach (s : System) : System → Type 0 where
  here : Reach s s
  next : {t u : System} → Reach s t → Step t u → Reach s u

pub record IsSound (s : System) : Type 0 where
  pub valid : IsValid s.buffer
  pub sending : All IsMatched s.sending
  pub consumed : All IsMatched s.consumed
  -- The counter of pairs: those received, in the channel, about to be sent, or refused.
  pub paired :
      s.buffer.stats.paired
      ≡ length s.consumed + length s.buffer.pairs + length s.sending + s.refused
  -- Each capture is accounted for once, but for those replaced; a lost pair counts once for two.
  pub received : s.buffer.stats.received ≡ weight s.buffer + s.replaced + s.lost

pub start-IsSound : (opts : Options) → IsSound (start opts)
unfolding new
start-IsSound opts = record {
  valid = record {
    aligned = refl;
    distinct = tt;
    bounded = omega arith;
    room = ground arith;
    backlog = omega arith;
    filed = tt;
    matched = tt;
  };
  sending = tt;
  consumed = tt;
  paired = omega arith;
  received = omega arith;
}

All-option_list :
    (o : Option Pair) (ps : List Pair)
    → OfPair o
    → All IsMatched ps
    → All IsMatched (option_list o ++ ps)
All-option_list none ps m h = h
All-option_list (some p) ps m h = (m, h)

after_capture-IsSound :
    (now : Time) (c : Capture) {s : System} → IsSound s → IsSound (after_capture now c s)
after_capture-IsSound now c {s} h =
    let (valid, pair, w) = ingest_locked-IsValid now c h.valid in
    let (pairs, _, received, paired) = ingest_locked-counts now c h.valid in
    record {
      valid = valid;
      sending = All-option_list (ingest_locked now c s.buffer).1 s.sending pair h.sending;
      consumed = h.consumed;
      paired = omega (
        arith,
        ap length pairs,
        length-append (option_list (ingest_locked now c s.buffer).1) s.sending,
        h.paired,
      );
      received = omega (arith, h.received);
    }

All-split :
    (l : List Pair) (p : Pair) (r : List Pair)
    → All IsMatched (l ++ p ∷ r)
    → IsMatched p × All IsMatched (l ++ r)
All-split [] p r h = h
All-split (x ∷ l) p r h = let (m, rest) = All-split l p r h.1 in (m, (h.0, rest))

after_send-IsSound :
    (l : List Pair) (p : Pair) (r : List Pair) {s : System}
    → s.sending ≡ l ++ p ∷ r
    → IsSound s
    → IsSound (after_send l p r s)
unfolding try_send
after_send-IsSound l p r {s} e h =
    let (m, rest) = All-split l p r (subst (All IsMatched) e h.sending) in
    elim (Bool-cases (ltb (length s.buffer.pairs) s.buffer.opts.buffer)) [
      | inl free ↦ rw free (record {
        valid =
            with_pairs-IsValid (s.buffer.pairs ++ p ∷ []) h.valid
              (ground (arith, length-append {A = Pair} s.buffer.pairs (p ∷ [])))
              (All-append IsMatched s.buffer.pairs (p ∷ []) h.valid.matched (m, tt));
        sending = rest;
        consumed = h.consumed;
        paired = omega (
          arith,
          h.paired,
          ap length e,
          length-append {A = Pair} s.buffer.pairs (p ∷ []),
          length-append {A = Pair} l (p ∷ r),
          length-append {A = Pair} l r,
        );
        received = h.received;
      })
      | inr full ↦ rw full (record {
        valid = h.valid;
        sending = rest;
        consumed = h.consumed;
        paired = omega (
          arith,
          h.paired,
          ap length e,
          length-append {A = Pair} l (p ∷ r),
          length-append {A = Pair} l r,
        );
        received = h.received;
      })
    ]

after_count-IsSound :
    (n : ℕ) {s : System} → s.refused ≡ suc n → IsSound s → IsSound (after_count n s)
unfolding count_drop
after_count-IsSound n {s} e h = record {
  valid = with_stats-IsValid _ h.valid;
  sending = h.sending;
  consumed = h.consumed;
  paired = omega (arith, h.paired);
  received = omega (arith, h.received, h.paired);
}

after_sweep-IsSound : (now : Time) {s : System} → IsSound s → IsSound (after_sweep now s)
unfolding sweep
after_sweep-IsSound now {s} h = rw (expire_lem now s.buffer (IsValid-IsAligned h.valid)) (record {
  valid = swept-IsValid now h.valid;
  sending = h.sending;
  consumed = h.consumed;
  paired = h.paired;
  received = omega (arith, h.received, length-survivors-le now s.buffer.opts s.buffer.pending);
})

after_receive-IsSound : {s : System} → IsSound s → IsSound (after_receive s)
unfolding receive
after_receive-IsSound {s} h = elim (List-cases s.buffer.pairs) [
  | inl none_left ↦ rw (none_left, receive) h
  | inr (p, ps, e) ↦
      let m = subst (All IsMatched) e h.valid.matched in
      rw (e, receive)
        (record {
          valid = with_pairs-IsValid ps h.valid (omega (arith, ap length e, h.valid.backlog)) m.1;
          sending = h.sending;
          consumed = (m.0, h.consumed);
          paired = omega (arith, ap length e, h.paired);
          received = h.received;
        })
]

pub Step-IsSound : {s t : System} → Step s t → IsSound s → IsSound t
Step-IsSound (capture now c e) h = rw e (after_capture-IsSound now c h)
Step-IsSound (send l p r q e) h = rw e (after_send-IsSound l p r q h)
Step-IsSound (count n q e) h = rw e (after_count-IsSound n q h)
Step-IsSound (tick now e) h = rw e (after_sweep-IsSound now h)
Step-IsSound (consume e) h = rw e (after_receive-IsSound h)

-- However the goroutines interleave, from a new buffer on: no id is held twice and never more than
-- `MaxPending` captures; every pair that is made, sent or received is one primary and one shadow
-- capture of one correlation id; the count of pairs is what was received, what is in the channel,
-- what is on its way and what was refused and not counted yet; and every capture received is accounted for by the counters, but for
-- those that a capture of the same side replaced and for one of the two of each lost pair.
pub Reach-IsSound : (opts : Options) {s : System} → Reach (start opts) s → IsSound s
Reach-IsSound opts here = start-IsSound opts
Reach-IsSound opts (next r st) = Step-IsSound st (Reach-IsSound opts r)
