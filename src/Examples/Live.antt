-- ===== src/Examples/Live.antt =====
-- Two captures of one request, their pair sent, received and added to the report, in steps.
use dark_canary.Prelude.{
  ◌+◌, ◌≡◌, refl, false, some, [], ◌∷◌, Bytes, codes, bytes_beq, contains, lookup, insert,
}
use dark_canary.Collector.Types.{Capture, Pair, path_primary, path_shadow, Stats}
use dark_canary.Collector.Buffer.{
  stats, receive, ingest_locked, is_malformed, file_capture, expire, expire_loop, new, store, stamp,
  meet, make_pair, try_send, remove,
}
use dark_canary.Collector.Interleaving.{
  System as Collector, start, after_capture, after_send, capture, send,
}
use dark_canary.Noise.Rules.{default_rules}
use dark_canary.Safety.Config.{default_config}
use dark_canary.Safety.KillSwitch.{engaged_at}
use dark_canary.Report.Aggregator.{Summary, summary}
use dark_canary.Server.Capturing.{authorised}
use dark_canary.Service.Handlers.{
  encoded_summary, statistics, wants_json, handle_report, handle_stats, new_server,
}
use dark_canary.Service.Live.{
  Live, service, after_take, after_add, Reach, here, next, collect, take_pair, add_pair, additions,
  on_way, fresh_live,
}
use dark_canary.Service.Answers.{answers-account}
use dark_canary.Examples.Command.{percent}
use dark_canary.Examples.Runtime.{small_runtime}
use dark_canary.Examples.Service.{server_options, plain_formats, keeping, impatient, asks_json}

abbrev sent_by : Bytes → Capture
sent_by path = record {
  path = path;
  correl_id = codes "a";
  method = codes "GET";
  url = codes "/orders";
  req_headers = [];
  req_body = [];
  status = 200;
  res_headers = [];
  res_body = [];
  latency = 3;
  at = 4;
}

abbrev the_pair : Pair
the_pair = record {
  correl_id = codes "a";
  primary = sent_by path_primary;
  shadow = sent_by path_shadow;
}

abbrev begun : Live
begun = fresh_live small_runtime percent 1 (default_config percent) [] default_rules server_options

abbrev waiting : Collector
waiting = after_capture 5 (sent_by path_primary) (start server_options)

abbrev met : Collector
met = after_capture 6 (sent_by path_shadow) waiting

abbrev in_channel : Collector
in_channel = after_send [] the_pair [] met

-- The summary is asked for here.
abbrev asked : Live
asked = record begun { collector = in_channel }

abbrev in_hand : Live
in_hand = after_take small_runtime asked

abbrev added : Live
added = after_add small_runtime 7 the_pair in_hand

-- The statistics are asked for here, with another request under way.
abbrev answered : Live
answered = record added { collector = after_capture 9 (sent_by path_primary) added.collector }

met-sending : met.sending ≡ the_pair ∷ []
unfolding new ingest_locked expire expire_loop is_malformed stamp file_capture store meet remove
    make_pair lookup insert bytes_beq contains
met-sending = refl

in_hand-hand : in_hand.hand ≡ some the_pair
unfolding new ingest_locked expire expire_loop is_malformed stamp file_capture store meet remove
    lookup insert bytes_beq contains try_send receive
in_hand-hand = refl

abbrev first_half : Reach small_runtime begun asked
first_half =
    next
      (next (next here (collect waiting (capture 5 (sent_by path_primary) refl) refl refl))
        (collect met (capture 6 (sent_by path_shadow) refl) refl refl))
      (collect in_channel (send [] the_pair [] met-sending refl) refl refl)

abbrev second_half : Reach small_runtime asked answered
second_half =
    next (next (next here (take_pair refl refl)) (add_pair 7 the_pair in_hand-hand refl))
      (collect answered.collector (capture 9 (sent_by path_primary) refl) refl refl)

abbrev early_summary : Summary
early_summary = summary 6 asked.agg

abbrev late_stats : Stats
late_stats = stats answered.collector.buffer

early_report :
    handle_report 6 impatient plain_formats keeping (service asked) asks_json
    ≡ encoded_summary early_summary
unfolding handle_report authorised wants_json new_server bytes_beq
early_report = refl

late_answer : (handle_stats 11 false (service answered) asks_json).1 ≡ statistics late_stats false
unfolding handle_stats authorised new_server bytes_beq engaged_at
late_answer = refl

answers-account_example :
    (late_stats.paired
      ≡ early_summary.pairs
        + additions small_runtime second_half
        + late_stats.backlog
        + on_way small_runtime answered)
    × (early_summary.identical + early_summary.divergent ≡ early_summary.pairs)
answers-account_example =
    answers-account small_runtime percent 1 (default_config percent) [] default_rules server_options
      6 11 impatient plain_formats keeping asks_json asks_json false false early_summary late_stats
      first_half second_half early_report late_answer
