-- ===== src/Service/Shares.antt =====
-- cmd/dark-canary/main.go: the counts and rates that /report sends.
use mathlib.Core.Path.{subst}
use dark_canary.Prelude.{◌≡◌, sym, ap, ◌∙◌, Option, List, [], ◌∷◌, Bytes, All}
use dark_canary.Collector.Types.{Time, Pair, Options}
use dark_canary.Safety.Config.{Rates, Config}
use dark_canary.Noise.Rules.{Ruleset}
use dark_canary.Diff.Runtime.{Runtime}
use dark_canary.Diff.Engine.{Engine, Result}
use dark_canary.Diff.Apart.Growth.{Apart}
use dark_canary.Diff.Apart.Responses.{DecodesMaps, diff-Apart}
use dark_canary.Report.Aggregator.{Summary, summary, new}
use dark_canary.Report.Counts.{add_all}
use dark_canary.Report.Shares.{IsShare, summary-IsShare}
use dark_canary.Report.Text.{Formats, Tabs}
use dark_canary.Service.Handlers.{Query, encoded_summary, handle_report, new_server}
use dark_canary.Service.Pipeline.{System, Reach, results, fresh_start}
use dark_canary.Service.Faithful.{Reach-IsFaithful}
use dark_canary.Service.Answers.{handle_report_inv}

module _ (rt : Runtime) where
  results-Apart :
      (e : Engine) (ps : List (Time × Pair))
      → DecodesMaps rt
      → All (λ (q : Time × Result). Apart q.1.differences) (results rt e ps)
  results-Apart e [] maps = tt
  results-Apart e ((now, p) ∷ ps) maps = (diff-Apart rt e p maps, results-Apart e ps maps)

  -- Where the JSON decoder makes maps of objects, and however a new server was used: in a summary that
  -- /report sends each finding is counted in no more pairs than diverge, and its rate, where there are
  -- pairs, is its count over their number, so that no rate is above one.
  pub handle_report-IsShare :
      {Error : Type 0} (rates : Rates) (since : Time) (cfg : Config rates) (token : Bytes)
      (rules : Ruleset) (opts : Options) {s : System} (now : Time)
      (accepts : List Bytes → Bytes → Option Error) (formats : Formats) (tabs : Tabs) (q : Query)
      (sm : Summary)
      → DecodesMaps rt
      → Reach rt (fresh_start rt (new_server rt rates since cfg token rules opts)) s
      → handle_report now accepts formats tabs s.service q ≡ encoded_summary sm
      → All (IsShare sm) sm.groups
  unfolding new_server
  handle_report-IsShare rates since cfg token rules opts {s} now accepts formats tabs q sm maps
        reach sent =
      let h = Reach-IsFaithful rt rates since cfg token rules opts reach in
      let e = (new_server rt rates since cfg token rules opts).engine in
      let made : summary now (add_all (results rt e s.compared) (new since)) ≡ sm =
        ap (summary now) (sym h.reported)
        ∙ (handle_report_inv now accepts formats tabs s.service q sm sent).1 in
      subst (λ t. All (IsShare t) t.groups) made
        (summary-IsShare since now (results rt e s.compared) (results-Apart e s.compared maps))
