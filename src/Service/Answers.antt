-- ===== src/Service/Answers.antt =====
-- cmd/dark-canary/main.go: what the answers of /report and /stats say of each other.
use mathlib.Core.Path.{subst}
use dark_canary.Prelude.{◌+◌, ◌≤◌, ◌≡◌, refl, ap, Bool, true, Option, List, arith, Bytes, length}
use dark_canary.Collector.Types.{Time, Stats, Options, Buffer}
use dark_canary.Collector.Buffer.{stats}
use dark_canary.Safety.Config.{Rates, Config}
use dark_canary.Noise.Rules.{Ruleset}
use dark_canary.Diff.Runtime.{Runtime}
use dark_canary.Report.Aggregator.{Aggregator, Summary, summary}
use dark_canary.Report.Text.{Formats, Tabs}
use dark_canary.Server.Capturing.{authorised}
use dark_canary.Service.Handlers.{
  Service, Query, encoded_summary, statistics, asks, handle_report, handle_stats,
}
use dark_canary.Service.Live.{
  Live, service, Reach, additions, on_way, fresh_live, Reach-IsAccounted, fresh_live-IsAccounted,
  additions_lem,
}

pub handle_report_inv :
    {Error : Type 0} (now : Time) (accepts : List Bytes → Bytes → Option Error) (formats : Formats)
    (tabs : Tabs) (s : Service) (q : Query) (sm : Summary)
    → handle_report now accepts formats tabs s q ≡ encoded_summary sm
    → (authorised s.server (asks q) ≡ true) × (summary now s.agg ≡ sm)
unfolding handle_report
handle_report_inv now accepts formats tabs s q sm h = ground arith

handle_stats_inv :
    (t : Time) (exists : Bool) (s : Service) (q : Query) (st : Stats) (on : Bool)
    → (handle_stats t exists s q).1 ≡ statistics st on
    → (authorised s.server (asks q) ≡ true) × (stats s.server.buffer ≡ st)
unfolding handle_stats
handle_stats_inv t exists s q st on h = ground arith

divergent_lem :
    (now : Time) (a : Aggregator)
    → a.identical ≤ a.pairs
    → (summary now a).identical + (summary now a).divergent ≡ (summary now a).pairs
unfolding summary
divergent_lem now a h = omega arith

summary-pairs : (now : Time) (a : Aggregator) → (summary now a).pairs ≡ a.pairs
unfolding summary
summary-pairs now a = refl

stats_lem :
    (b : Buffer) → ((stats b).paired ≡ b.stats.paired) × ((stats b).backlog ≡ length b.pairs)
unfolding stats
stats_lem b = (refl, refl)

-- A new server is used, its goroutines interleaved between their critical sections: the calls of
-- Ingest, the sweeper, the one consumer, which receives a pair and adds it to the report later, and
-- requests. Of a summary that /report sends and of the statistics that /stats sends then or any time
-- after, both asked with the token where there is one: the pairs counted as paired are those in the
-- summary, those added to the report between the two answers, those that wait in the channel, and
-- those on their way, which are to be sent to the channel, refused by it and not yet uncounted, or in
-- the hand of the consumer. Each pair in the summary is identical or divergent. Either answer is taken
-- in one moment.
pub answers-account :
    {Error : Type 0} (rt : Runtime) (rates : Rates) (since : Time) (cfg : Config rates)
    (token : Bytes) (rules : Ruleset) (opts : Options) {u v : Live} (now t : Time)
    (accepts : List Bytes → Bytes → Option Error) (formats : Formats) (tabs : Tabs) (q q' : Query)
    (exists on : Bool) (sm : Summary) (st : Stats)
    → Reach rt (fresh_live rt rates since cfg token rules opts) u
    → (later : Reach rt u v)
    → handle_report now accepts formats tabs (service u) q ≡ encoded_summary sm
    → (handle_stats t exists (service v) q').1 ≡ statistics st on
    → (st.paired ≡ sm.pairs + additions rt later + st.backlog + on_way rt v)
      × (sm.identical + sm.divergent ≡ sm.pairs)
answers-account rt rates since cfg token rules opts {u} {v} now t accepts formats tabs q q' exists
      on sm st first later report counts =
    let h =
      Reach-IsAccounted rt (fresh_live-IsAccounted rt rates since cfg token rules opts) first in
    let h' = Reach-IsAccounted rt h later in
    let (_, made) = handle_report_inv now accepts formats tabs (service u) q sm report in
    let (_, taken) = handle_stats_inv t exists (service v) q' st on counts in
    let (paired, backlog) = stats_lem v.collector.buffer in
    (
      omega (
        arith,
        h'.sound.paired,
        h'.consumed,
        additions_lem rt later h,
        paired,
        backlog,
        summary-pairs now u.agg,
        ap (λ (x : Summary). x.pairs) made,
        ap (λ (x : Stats). x.paired) taken,
        ap (λ (x : Stats). x.backlog) taken,
      ),
      subst (λ (x : Summary). x.identical + x.divergent ≡ x.pairs) made
          (divergent_lem now u.agg h.identical),
    )
