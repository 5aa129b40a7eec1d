-- ===== src/Examples/Service.antt =====
-- A server in use, and a client that hangs up.
use dark_canary.Prelude.{
  ◌≡◌, refl, false, Option, none, some, List, [], ◌∷◌, ◌++◌, Bytes, codes, bytes_beq, contains,
  lookup, insert, ltb, length, if◌then◌else◌,
}
use dark_canary.Collector.Types.{Capture, path_primary, path_shadow, Options}
use dark_canary.Collector.Buffer.{
  receive, ingest, ingest_locked, is_malformed, file_capture, expire, expire_loop, new, store,
  stamp, meet, deliver, remove,
}
use dark_canary.Noise.Rules.{default_rules}
use dark_canary.Diff.Engine.{header}
use dark_canary.Safety.Config.{default_config}
use dark_canary.Report.Aggregator.{Summary, summary}
use dark_canary.Report.Text.{Formats, Tabs, pieces}
use dark_canary.Report.Writing.{text, until_failure, text-until_failure}
use dark_canary.Server.Capturing.{Request, authorised, handle_capture}
use dark_canary.Safety.KillSwitch.{engaged_at}
use dark_canary.Service.Handlers.{
  Service, Query, encoded_summary, wants_json, handle_report, new_server, consume_round,
  compare_pair,
}
use dark_canary.Service.Pipeline.{
  System, after_capture, after_consume, Reach, here, next, capture, consume, IsFaithful,
  fresh_start,
}
use dark_canary.Service.Faithful.{Reach-IsFaithful}
use dark_canary.Examples.Command.{percent}
use dark_canary.Examples.Runtime.{small_runtime}

abbrev pub plain_formats : Formats
plain_formats = record { elapsed = λ since now. codes "3s"; percentage = λ r. codes "50.0" }

-- A tabwriter that keeps all lines to the end.
abbrev pub keeping : Tabs
keeping = record {
  State = List Bytes;
  empty = [];
  put = λ line lines. (lines ++ line ∷ [], []);
  flush = λ lines. lines;
}

-- A client that takes two pieces.
abbrev pub impatient : List Bytes → Bytes → Option Bytes
impatient before p = if ltb 1 (length before) then some (codes "broken pipe") else none

abbrev one_group : Summary
one_group = record {
  pairs = 2;
  identical = 1;
  divergent = 1;
  suppressed = 0;
  groups =
      record {
        kind = header;
        path = codes "/headers/etag";
        count = 1;
        severity = codes "low";
        rate = (1, 2);
        example = record {
          correl_id = codes "1";
          method = codes "GET";
          url = codes "/orders";
          primary = codes "a\tb";
          shadow = codes "c";
        };
        first_at = 5;
        last_at = 5;
      }
      ∷ [];
  since = 1;
  now = 9;
}

text-until_failure_example :
    (
      (text impatient plain_formats keeping one_group).0.written,
      (text impatient plain_formats keeping one_group).1,
    )
    ≡ until_failure impatient [] (pieces plain_formats keeping one_group)
text-until_failure_example = text-until_failure impatient plain_formats keeping one_group

abbrev pub server_options : Options
server_options = record { timeout = 10; max_pending = 4; buffer = 2 }

abbrev pub used : Service
used = new_server small_runtime percent 1 (default_config percent) [] default_rules server_options

abbrev pub side : Bytes → Bytes → Bytes → Option Capture
side path status_text b = some (record {
  path = path;
  correl_id = codes "a";
  method = codes "GET";
  url = codes "/orders";
  req_headers = [];
  req_body = [];
  status = length status_text;
  res_headers = [];
  res_body = [];
  latency = 3;
  at = 0;
})

abbrev pub posted : Request
posted = record { token = []; method = codes "POST"; body = some (codes "{}") }

abbrev half : System
half =
    after_capture 5 false 6 (side path_primary (codes "ok")) (λ f b. b) posted
      (fresh_start small_runtime used)

abbrev whole : System
whole = after_capture 7 false 8 (side path_shadow (codes "odd")) (λ f b. b) posted half

abbrev pub compared : System
compared = after_consume small_runtime 9 whole

pub path : Reach small_runtime (fresh_start small_runtime used) compared
path =
    next
      (next (next here (capture 5 false 6 (side path_primary (codes "ok")) (λ f b. b) posted refl))
        (capture 7 false 8 (side path_shadow (codes "odd")) (λ f b. b) posted refl))
      (consume 9 refl)

Reach-IsFaithful_example : IsFaithful small_runtime used.engine used.agg compared
Reach-IsFaithful_example =
    Reach-IsFaithful small_runtime percent 1 (default_config percent) [] default_rules
      server_options path

abbrev pub asks_json : Query
asks_json = record { token = []; format = codes "json"; accept = [] }

pub reports :
    handle_report 10 impatient plain_formats keeping compared.service asks_json
    ≡ encoded_summary (summary 10 compared.service.agg)
unfolding handle_report authorised wants_json handle_capture new_server bytes_beq engaged_at
    contains after_consume consume_round compare_pair receive lookup insert ingest ingest_locked
    is_malformed file_capture expire expire_loop new store stamp meet deliver remove
reports = refl

abbrev pub with_token : Service
with_token = record used { server = record (used.server) { token = codes "secret" } }

abbrev asks_nothing : Query
asks_nothing = record { token = codes "guess"; format = []; accept = [] }
