-- ===== src/Lib.antt =====
-- dark-canary: a verification of its core in cubical type theory.
--
-- dark-canary mirrors requests to a shadow deployment. The edge sends a capture of each side to the
-- collector, which correlates the two captures of a request into a pair; the diff engine compares
-- the two responses of a pair and asks the noise rules which differences to drop; the report groups
-- what is left and ranks it. In proxy mode the program is the edge itself. Before any of this it
-- checks its flags, or refuses to start.
--
-- The parts, with the code that they model:
-- - Collector (internal/collector/collector.go): the buffer with its pending captures, their order,
--   its counters and the channel of pairs. `new`, `ingest`, `sweep`, `stats` and `receive` are New,
--   Ingest, Sweep, Stats and a receive from Pairs. Ingest holds its lock twice with the send to the
--   channel in between: `ingest_locked`, `try_send` and `count_drop` are these three steps, and
--   Collector.Interleaving composes them in any order with those of other goroutines. Collector.Queue
--   describes whole calls on one list of waiting captures, in place of a map and a slice of its keys.
-- - Diff (internal/diff/diff.go): `diff` is Diff, `add` and `suppressed` are the methods of the sink,
--   `walk` is the walk over two JSON values, which stands on the left one.
-- - Noise (internal/noise/noise.go): `load`, `merge`, `match_rule`, `suppress` and `apply` are Load,
--   Merge, Match, Suppress and Apply; `match_segments` is the loop of matchSegments.
-- - Report (internal/report/report.go): `add` and `summary` are Add and Summary, `write` is Write of
--   errWriter, `text` is Text, `one_line` is oneLine.
-- - Safety (internal/safety/safety.go): `default_config` and `validate` are Default and Validate,
--   `engaged_at` is Engaged of the kill switch, `scrub_body` and `scrub_header` are the scrubber's
--   Body and Header. `replace_field` is ReplaceAll of the pattern that NewScrubber compiles for a field.
-- - Server (cmd/dark-canary/main.go): `handle_capture` is handleCapture with authorised, ingest and
--   limit; it stands on the kill switch, the scrubber and the collector.
-- - Service (cmd/dark-canary/main.go, dashboard.go): `new_server`, `handle_report`, `handle_stats` and
--   `handle_dashboard` are newServer and the handlers, `consume_round` and `sweep_round` are rounds of
--   consume and sweep, `periodic_round` of periodic. Service.Pipeline composes them with handleCapture
--   in any order, each as one whole: in it, and in Program.System, the consumer receives a pair, compares
--   it and adds it to the report in one step. Service.Live cuts Ingest at its locks and the consumer
--   between the receive and the report. Service.Routes is `routes`: `serve` sends a request through the
--   multiplexer, an argument, to the handler of the pattern that it picks.
-- - Proxy (cmd/dark-canary/proxy.go): `tee_read` is Read of teeBody, `call` is Read or Close, `mirror` is
--   mirror, `serve_http` is ServeHTTP for one request with the body that the primary is sent. ServeHTTP,
--   mirrorToShadow and capturePrimary are cut where other goroutines run: `launch` is ServeHTTP from
--   the number to the start of the shadow's goroutine, `end_shadow` is mirrorToShadow,
--   `primary_capture` and `end_primary` are capturePrimary with the tee's Close. Proxy.System composes
--   them in any order with the sweeper and the consumer of pairs.
-- - Command (cmd/dark-canary/config.go, exit.go, main.go): `safety_config`, `rules`, `upstreams` and
--   `parse_upstream` are safetyConfig, rules, upstreams and parseUpstream, `start` is run up to its
--   first server, `finish_run` is its end, `exit_code` is exitCode. An error is kept as
--   the chain of what it wraps.
-- - Program (cmd/dark-canary/main.go, proxy.go): `begin` is the server and the proxy that run makes,
--   `new_proxy` is newProxy, `run` is run from the flags to its end, with what `periodic` writes before it, and `main_code` the exit code of main.
--   Program.System composes the routed requests, the rounds of the loops and the requests at the
--   proxy, on one server, in any order.
-- - Prelude: shared tests, lists, texts, association lists and sorting. Examples: concrete inputs.
--
-- How the code is read:
-- - A text is a list of bytes. Case folding and trimming treat ASCII letters and white space only.
-- - A time is a number of nanoseconds and 0 is Go's zero time; the clock is an argument of each
--   operation. `p.at.After(now-timeout)` is written `now < at + timeout`. Counters and sizes are
--   unbounded numbers, and an option that is not positive is 0. A status is a natural number, where a
--   JSON capture could hold a negative one. `read_limit` is the limit of a body, which
--   the code computes in 64 bits: a sum that wraps around to a negative number reads nothing.
-- - A map is an association list: an update keeps the place of a key and a new key comes last. Go
--   walks maps in any order; the code sorts afterwards, but where two header names of one side differ
--   in case only, the model takes the first. sort.Slice and sort.Strings are one insertion sort.
-- - A pending capture is a value under its key; the code updates it through a pointer that only the
--   map holds.
-- - Floats, the JSON codec and fmt's `%v` are the fields of the record `Runtime`, an argument
--   of what uses them. Reading the file and YAML are arguments of `load`. A rate is two counts whose
--   quotient the code takes. A sample rate is the field Rate of `Rates`, with Go's comparisons as tests.
-- - Parsing of URLs and addresses, the file of rules, and the answers of the primary and the shadow
--   are arguments. The proxy's number wraps around at 2^64; Go's float comparisons are not assumed to
--   order anything.
-- - The loop of matchSegments runs on fuel: one round for each pair of a place in the pattern and a
--   place in the path. Each `**` restarts with a shorter pattern, each retry with a shorter path, so
--   that this is enough. `decimal` and `base36` run on one round for
--   each unit of the number, more than it has digits. Every other loop is structural.
-- - The library's formats and its tabwriter are the records `Formats` and `Tabs`; the writer beneath
--   `Text` is a function of the pieces that it was given before.
-- - A body that is read is the bytes that it still has and whether an error follows them; an error that has
--   been met is met again.
-- - The kill file is a Boolean at each call, the JSON decoder of a capture and the replacement of a
--   compiled pattern are arguments of the handler. The scanner of the pattern reads bytes where Go
--   reads runes; no part of the pattern tells the bytes of one rune apart.
--
-- Not modelled: signals, tickers, listeners and the logger, and reading of the command line, which are
-- calls of Go's libraries; the HTTP client and the rewriting of a request by Go's reverse proxy; the demo
-- services; and the edge hook.
pub mod Prelude
pub mod Collector
pub mod Diff
pub mod Noise
pub mod Report
pub mod Safety
pub mod Server
pub mod Service
pub mod Proxy
pub mod Command
pub mod Program
mod Examples
