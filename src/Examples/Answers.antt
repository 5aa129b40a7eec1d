-- ===== src/Examples/Answers.antt =====
-- What the program sends and returns: to a stranger, in a report, and at its end.
use dark_canary.Prelude.{
  ◌≡◌, refl, false, if◌then◌else◌, contains, Option, none, some, List, [], ◌∷◌, ◌==◌, bytes_eq,
  Bytes, codes, arith, All, Bool-cases, inl, inr, bytes_beq,
}
use mathlib.Core.Path.{subst}
use dark_canary.Collector.Types.{path_primary}
use dark_canary.Noise.Rules.{default_rules}
use dark_canary.Diff.Value.{entries}
use dark_canary.Diff.Apart.Growth.{Apart}
use dark_canary.Diff.Apart.Keys.{HasKeys}
use dark_canary.Diff.Apart.Responses.{DecodesMaps, diff-Apart}
use dark_canary.Diff.Compare.{diff}
use dark_canary.Report.Aggregator.{summary}
use dark_canary.Report.Shares.{IsShare}
use dark_canary.Safety.Config.{default_config}
use dark_canary.Service.Handlers.{Service}
use dark_canary.Service.Routes.{HttpRequest, Moment, serve}
use dark_canary.Service.Privacy.{strangers_blind}
use dark_canary.Service.Shares.{handle_report-IsShare}
use dark_canary.Command.Failure.{message, op_error}
use dark_canary.Command.Flags.{Flags}
use dark_canary.Program.Exit.{Ending}
use dark_canary.Examples.Command.{percent, tests_flags}
use dark_canary.Examples.Diff.{engine, reordered}
use dark_canary.Examples.Runtime.{small_runtime, one_two, a_then_b, b_then_a, decode_some}
use dark_canary.Examples.Service.{
  with_token, compared, path, asks_json, reports, server_options, impatient, plain_formats, keeping,
  side,
}

-- It picks the dashboard for every path but one that is registered.
abbrev picks : List Bytes → Bytes → Option Bytes
picks ps p = if p == codes "/report" then some p else some (codes "/")

abbrev guess : HttpRequest
guess = record {
  path = codes "/report";
  token = codes "guess";
  method = codes "GET";
  body = none;
  format = codes "json";
  accept = [];
}

abbrev early : Moment
early = record {
  asked_at = 5;
  exists = false;
  now = 6;
  decode = side path_primary (codes "ok");
  replace = λ f b. b;
}

abbrev late : Moment
late = record early { asked_at = 70; now = 71 }

-- The same server after it has compared a pair.
abbrev richer : Service
richer = record with_token { agg = compared.service.agg }

strangers_blind_example :
    ((serve impatient plain_formats keeping picks early guess with_token).0 ≡ with_token)
    × ((serve impatient plain_formats keeping picks early guess with_token).1
        ≡ (serve impatient plain_formats keeping picks late guess richer).1)
strangers_blind_example =
    strangers_blind impatient plain_formats keeping picks early late guess with_token richer (cc)
      refl (cc)

small_runtime-DecodesMaps : DecodesMaps small_runtime
unfolding decode_some HasKeys entries contains bytes_beq
small_runtime-DecodesMaps b v h = elim (Bool-cases (b == codes "{a,b}")) [
  | inl first ↦
      subst HasKeys {x = a_then_b} {y = v} (ground arith)
        ((refl, (refl, tt)), (tt, ((tt, (tt, tt)), tt)))
  | inr not_first ↦ elim (Bool-cases (b == codes "{b,a}")) [
    | inl second ↦
        subst HasKeys {x = b_then_a} {y = v} (ground arith)
          ((refl, (refl, tt)), ((tt, (tt, tt)), (tt, tt)))
    | inr not_second ↦ elim (Bool-cases (b == codes "[1,2]")) [
      | inl third ↦ subst HasKeys {x = one_two} {y = v} (ground arith) (tt, (tt, tt))
      | inr none_of_them ↦ absurd (ground arith)
    ]
  ]
]

diff-Apart_example : Apart (diff small_runtime engine reordered).differences
diff-Apart_example = diff-Apart small_runtime engine reordered small_runtime-DecodesMaps

handle_report-IsShare_example :
    All (IsShare (summary 10 compared.service.agg)) (summary 10 compared.service.agg).groups
handle_report-IsShare_example =
    handle_report-IsShare small_runtime percent 1 (default_config percent) [] default_rules
      server_options 10 impatient plain_formats keeping asks_json (summary 10 compared.service.agg)
      small_runtime-DecodesMaps path reports

-- The flags, with a report each minute.
abbrev every_minute : Flags percent
every_minute = record tests_flags { interval = 60_000_000_000 }

-- The listener has failed, after one report has been due.
abbrev taken_port : Ending
taken_port = record {
  ticks = (80, compared.service) ∷ [];
  err = op_error message;
  proxy_err = none;
  agg = compared.service.agg;
  now = 90;
}
