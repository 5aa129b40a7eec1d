-- ===== src/Service/Live.antt =====
-- cmd/dark-canary/main.go: the server while its goroutines interleave inside of Ingest and of consume.
-- A step is what one of them does under one lock, or one channel operation.
use dark_canary.Prelude.{
  ℕ, ◌+◌, ◌≤◌, ◌≡◌, refl, ap, ◌∙◌, Option, none, some, arith, Bytes, length, length-append,
  Bool-cases, inl, inr,
}
use dark_canary.Collector.Types.{Time, Pair, Options}
use dark_canary.Collector.Buffer.{receive}
use dark_canary.Collector.Counters.{option_list}
use dark_canary.Collector.Interleaving.{
  System as Collector, Step as CollectorStep, start, after_receive, consume, IsSound, start-IsSound,
  Step-IsSound,
}
use dark_canary.Safety.Config.{Rates, Config}
use dark_canary.Safety.KillSwitch.{KillSwitch}
use dark_canary.Noise.Rules.{Ruleset}
use dark_canary.Diff.Runtime.{Runtime}
use dark_canary.Diff.Engine.{Engine, Result, is_identical}
use dark_canary.Diff.Compare.{diff}
use dark_canary.Report.Aggregator.{Aggregator, add, new as new_aggregator}
use dark_canary.Server.Capturing.{Server}
use dark_canary.Service.Handlers.{Service, compare_pair, new_server}

-- The collector with what its callers have on the way, the rest of the server, and the pair that the
-- consumer has received and not added to the report.
pub record Live : Type 0 where
  pub collector : Collector
  pub server : Server
  pub engine : Engine
  pub agg : Aggregator
  pub hand : Option Pair

-- The server as a handler finds it.
abbrev pub service : Live → Service
service s = record {
  server = record (s.server) { buffer = s.collector.buffer };
  engine = s.engine;
  agg = s.agg;
}

module _ (rt : Runtime) where
  abbrev pub after_take : Live → Live
  after_take s = record s {
    collector = after_receive s.collector;
    hand = (receive s.collector.buffer).1;
  }

  abbrev pub after_add : Time → Pair → Live → Live
  after_add now p s = record s { agg = (compare_pair rt now p (service s)).agg; hand = none }

  -- Calls of Ingest and rounds of the sweeper take their steps; the consumer, which is one, receives
  -- with an empty hand and adds what it has in it; a request may renew what the kill switch knows.
  pub data Step (s t : Live) : Type 0 where
    collect :
        (c : Collector)
        → CollectorStep s.collector c
        → c.consumed ≡ s.collector.consumed
        → t ≡ record s { collector = c }
        → Step s t
    take_pair : s.hand ≡ none → t ≡ after_take s → Step s t
    add_pair : (now : Time) (p : Pair) → s.hand ≡ some p → t ≡ after_add now p s → Step s t
    touch :
        (kill : KillSwitch) → t ≡ record s { server = record (s.server) { kill = kill } } → Step s t

  pub data Reach (s : Live) : Live → Type 0 where
    here : Reach s s
    next : {t u : Live} → Reach s t → Step t u → Reach s u

  -- How many pairs a run adds to the report.
  abbrev pub additions : {s t : Live} → Reach s t → ℕ
  additions here = 0
  additions (next r (add_pair now p q e)) = additions r + 1
  additions (next r (collect c st q e)) = additions r
  additions (next r (take_pair q e)) = additions r
  additions (next r (touch kill e)) = additions r

  -- The pairs that are counted and in neither the channel nor the report: those about to be sent, those
  -- that found no room and are still counted, and the one in the consumer's hand.
  abbrev pub on_way : Live → ℕ
  on_way s = length s.collector.sending + s.collector.refused + length (option_list s.hand)

  -- The server of `newServer`.
  abbrev pub fresh_live : (rates : Rates) → Time → Config rates → Bytes → Ruleset → Options → Live
  fresh_live rates now cfg token rules opts =
      let s = new_server rt rates now cfg token rules opts in
      record {
        collector = start opts;
        server = s.server;
        engine = s.engine;
        agg = s.agg;
        hand = none;
      }

  pub record IsAccounted (s : Live) : Type 0 where
    pub sound : IsSound s.collector
    pub consumed : length s.collector.consumed ≡ s.agg.pairs + length (option_list s.hand)
    pub identical : s.agg.identical ≤ s.agg.pairs

  add-counts :
      (now : Time) (r : Result) (a : Aggregator)
      → a.identical ≤ a.pairs
      → ((add now r a).pairs ≡ a.pairs + 1) × ((add now r a).identical ≤ (add now r a).pairs)
  unfolding add
  add-counts now r a h = elim (Bool-cases (is_identical r)) [
    | inl same ↦ rw same (refl, omega (arith, h))
    | inr other ↦ rw other (refl, omega (arith, h))
  ]

  after_add-pairs :
      (now : Time) (p : Pair) (s : Live)
      → (after_add now p s).agg ≡ add now (diff rt s.engine p) s.agg
  unfolding compare_pair
  after_add-pairs now p s = refl

  pub Step-IsAccounted : {s t : Live} → Step s t → IsAccounted s → IsAccounted t
  Step-IsAccounted (collect c st q e) h = rw e (record {
    sound = Step-IsSound st h.sound;
    consumed = ap length q ∙ h.consumed;
    identical = h.identical;
  })
  Step-IsAccounted {s} (take_pair q e) h = rw e (record {
    sound = Step-IsSound (consume refl) h.sound;
    consumed = omega (
      arith,
      h.consumed,
      ap (λ o. length (option_list o)) q,
      length-append (option_list (receive s.collector.buffer).1) s.collector.consumed,
    );
    identical = h.identical;
  })
  Step-IsAccounted {s} (add_pair now p q e) h =
      let (pairs, identical) = add-counts now (diff rt s.engine p) s.agg h.identical in
      let same = after_add-pairs now p s in
      rw e (record {
        sound = h.sound;
        consumed = omega (
          arith,
          h.consumed,
          ap (λ o. length (option_list o)) q,
          ap (λ (a : Aggregator). a.pairs) same,
          pairs,
        );
        identical = omega (
          arith,
          ap (λ (a : Aggregator). a.pairs) same,
          ap (λ (a : Aggregator). a.identical) same,
          identical,
        );
      })
  Step-IsAccounted (touch kill e) h =
      rw e (record { sound = h.sound; consumed = h.consumed; identical = h.identical })

  pub Reach-IsAccounted : {s t : Live} → IsAccounted s → Reach s t → IsAccounted t
  Reach-IsAccounted h here = h
  Reach-IsAccounted h (next r st) = Step-IsAccounted st (Reach-IsAccounted h r)

  pub fresh_live-IsAccounted :
      (rates : Rates) (now : Time) (cfg : Config rates) (token : Bytes) (rules : Ruleset)
      (opts : Options)
      → IsAccounted (fresh_live rates now cfg token rules opts)
  unfolding new_server new_aggregator
  fresh_live-IsAccounted rates now cfg token rules opts = record {
    sound = start-IsSound opts;
    consumed = refl;
    identical = omega arith;
  }

  -- The pairs in the report grow with the run.
  pub additions_lem :
      {s t : Live} (r : Reach s t) → IsAccounted s → t.agg.pairs ≡ s.agg.pairs + additions r
  additions_lem here h = omega arith
  additions_lem (next r (collect c st q e)) h = rw e (additions_lem r h)
  additions_lem (next r (take_pair q e)) h = rw e (additions_lem r h)
  additions_lem (next {t} r (add_pair now p q e)) h =
      let before = Reach-IsAccounted h r in
      let (pairs, _) = add-counts now (diff rt t.engine p) t.agg before.identical in
      rw e (
        omega (
          arith,
          additions_lem r h,
          ap (λ (a : Aggregator). a.pairs) (after_add-pairs now p t),
          pairs,
        ))
  additions_lem (next r (touch kill e)) h = rw e (additions_lem r h)
