-- ===== src/Server/Safe.antt =====
-- cmd/dark-canary/main.go: a server that may be served from, and what leaves it so.
use mathlib.Core.Path.{subst}
use dark_canary.Prelude.{ap, inl, inr, arith, length, bytes_eq, All, List-cases}
use dark_canary.Collector.Types.{Time}
use dark_canary.Collector.Buffer.{sweep, receive}
use dark_canary.Collector.Invariant.{
  IsValid, IsMatched, IsValid-IsAligned, sweep-IsValid, with_pairs-IsValid,
}
use dark_canary.Collector.Expiry.{expire_lem, All-survivors}
use dark_canary.Collector.Contents.{EntryHolds, PairHolds}
use dark_canary.Server.Capturing.{Server}
use dark_canary.Server.Guards.{IsClean, Stores}
use dark_canary.Safety.KillSwitch.{KillSwitch}

-- The buffer has its invariant, and every capture in it may be stored.
pub record IsSafe (s : Server) : Type 0 where
  pub valid : IsValid s.buffer
  pub stores : Stores s s.buffer

-- The switch does not matter to what the server holds.
pub with_kill-IsSafe :
    (kill : KillSwitch) {s : Server} → IsSafe s → IsSafe (record s { kill = kill })
with_kill-IsSafe kill h = record { valid = h.valid; stores = h.stores }

pub sweep-IsSafe :
    (now : Time) {s : Server} → IsSafe s → IsSafe (record s { buffer = (sweep now s.buffer).0 })
unfolding sweep
sweep-IsSafe now {s} h = record {
  valid = sweep-IsValid now h.valid;
  stores = rw (expire_lem now s.buffer (IsValid-IsAligned h.valid)) (
    All-survivors (EntryHolds (IsClean s.max_body s.fields s.reads_only)) now s.buffer.opts
        s.buffer.pending h.stores.0,
    h.stores.1,
  );
}

pub receive-IsSafe : {s : Server} → IsSafe s → IsSafe (record s { buffer = (receive s.buffer).0 })
unfolding receive
receive-IsSafe {s} h = elim (List-cases s.buffer.pairs) [
  | inl empty ↦ rw (empty, receive) h
  | inr (p, ps, e) ↦
      let matched = subst (All IsMatched) e h.valid.matched in
      let stored =
        subst (All (PairHolds (IsClean s.max_body s.fields s.reads_only))) e h.stores.1 in
      rw (e, receive)
        (record {
          valid =
              with_pairs-IsValid ps h.valid (omega (arith, ap length e, h.valid.backlog)) matched.1;
          stores = (h.stores.0, stored.1);
        })
]
