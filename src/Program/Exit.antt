-- ===== src/Program/Exit.antt =====
-- cmd/dark-canary/main.go: `run` from the flags to its end, and the exit code of `main`.
use dark_canary.Prelude.{
  ◌≡◌, ◌≢◌, Option, none, some, List, [], Bytes, ◌++◌, ◌∷◌, ◌⊎◌, if◌then◌else◌, ltb,
}
use dark_canary.Collector.Types.{Time}
use dark_canary.Safety.Config.{Rates}
use dark_canary.Report.Aggregator.{Aggregator, summary}
use dark_canary.Report.Text.{Formats, Tabs}
use dark_canary.Report.Writing.{text}
use dark_canary.Service.Handlers.{Service, periodic_round}
use dark_canary.Command.Failure.{Failure, exit_ok}
use dark_canary.Command.Flags.{Flags}
use dark_canary.Command.Upstreams.{Upstreams, collector_mode, proxy_mode, bad_upstreams}
use dark_canary.Command.Startup.{World, Started, refused, serving, start}
use dark_canary.Command.Finish.{main_code, finish_run, left_by, StoppedCleanly}

-- What a program that serves meets until its end: the ticks of `periodic`, if it runs, each with its
-- time and the server that it finds; what the listener for captures has returned, what the proxy's
-- has, if it has by then, and the aggregator, with the time of its summary.
pub record Ending : Type 0 where
  pub ticks : List (Time × Service)
  pub err : Failure
  pub proxy_err : Option Failure
  pub agg : Aggregator
  pub now : Time

-- Only with upstreams there is a listener of the proxy.
abbrev pub proxy_end : Upstreams → Ending → Option Failure
proxy_end collector_mode e = none
proxy_end (proxy_mode p s) e = e.proxy_err
proxy_end (bad_upstreams f) e = none

-- What `run` returns and has written to stderr of reports. Either the program stopped cleanly, its exit
-- code is that of success and behind the earlier reports stands the last one; or it did not, the code
-- is another one, and there are the earlier reports alone.
abbrev pub EndsAfter : Failure × List Bytes → Type 0 → List Bytes → List Bytes → Type 0
EndsAfter (e, written) Clean earlier report =
    ((main_code (some e) ≡ exit_ok) × Clean × (written ≡ earlier ++ report))
    ⊎ ((main_code (some e) ≢ exit_ok) × ¬ Clean × (written ≡ earlier))

module _ (rates : Rates) where
  -- The program gets to serve and is then shut down in order.
  abbrev pub RunsCleanly : Started rates → Ending → Type 0
  RunsCleanly (refused e) at_end = ⊥
  RunsCleanly (serving cfg warn rs ups) at_end = StoppedCleanly at_end.err (proxy_end ups at_end)

  module _ {Error : Type 0} (accepts : List Bytes → Bytes → Option Error) (formats : Formats)
      (tabs : Tabs) where
    -- `periodic`, from its first tick to its last.
    unfoldable pub periodic : List (Time × Service) → List Bytes
    unfolding periodic_round
    periodic [] = []
    periodic ((now, s) ∷ ticks) = periodic_round now accepts formats tabs s ++ periodic ticks

    -- The text of one report for each tick.
    abbrev pub tick_reports : List (Time × Service) → List Bytes
    tick_reports [] = []
    tick_reports ((now, s) ∷ ticks) =
        (text accepts formats tabs (summary now s.agg)).0.written ++ tick_reports ticks

    -- What is written before the end: with an interval, a report for each tick.
    abbrev pub earlier_reports : Flags rates → Started rates → Ending → List Bytes
    earlier_reports o (refused e) at_end = []
    earlier_reports o (serving cfg warn rs ups) at_end =
        if ltb 0 o.interval then tick_reports at_end.ticks else []

    abbrev pub after_start : Flags rates → Started rates → Ending → Failure × List Bytes
    after_start o (refused e) at_end = (e, [])
    after_start o (serving cfg warn rs ups) at_end =
        let earlier = if ltb 0 o.interval then periodic at_end.ticks else [] in
        let last : Failure × List Bytes =
          finish_run accepts formats tabs (summary at_end.now at_end.agg) at_end.err
            (left_by (proxy_end ups at_end)) in
        (last.0, earlier ++ last.1)

    -- `run`, with what it writes of reports.
    unfoldable pub run : World → Flags rates → Ending → Failure × List Bytes
    unfolding periodic
    run world o at_end = after_start o (start rates world o) at_end
