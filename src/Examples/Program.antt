-- ===== src/Examples/Program.antt =====
-- The program from its flags on, in proxy mode.
use dark_canary.Prelude.{
  ◌≡◌, refl, false, none, codes, bytes_beq, Bool, leb, arith, some, [], Option, List, Bytes, ◌==◌,
  bytes_eq, if◌then◌else◌,
}
use dark_canary.Collector.Types.{path_primary, Time}
use dark_canary.Noise.Rules.{default_rules}
use dark_canary.Safety.Config.{validate}
use dark_canary.Service.Pipeline.{after_capture, capture, tick}
use dark_canary.Service.Handlers.{sweep_round}
use dark_canary.Proxy.System.{System as Requests, after_arrival, arrive}
use dark_canary.Command.Flags.{
  Flags, default_flags, folded, safety_config, check_listen, is_loopback, rules, split_list,
  split_commas, keep_parts,
}
use dark_canary.Command.Upstreams.{parsed, Upstreams, proxy_mode, parse_upstream, upstreams}
use dark_canary.Command.Startup.{World, serving, start, with_upstreams}
use dark_canary.Program.Main.{Program, view, put, begin}
use dark_canary.Program.System.{routed, served, proxied, Reach, here, next}
use dark_canary.Program.Promises.{KeepsPromises, Reach-KeepsPromises}
use dark_canary.Program.Stopping.{IsTruePath, kill_file-stops}
use dark_canary.Server.Capturing.{handle_capture}
use dark_canary.Proxy.Mirror.{mirror}
use dark_canary.Examples.Command.{percent, small_world}
use dark_canary.Examples.Proxy.{get_orders}
use dark_canary.Examples.Runtime.{small_runtime}
use dark_canary.Service.Routes.{HttpRequest, Moment, serve}
use dark_canary.Command.Failure.{Failure}
use dark_canary.Examples.Service.{plain_formats, keeping, side, posted}

abbrev reachable : World
reachable = record small_world {
  parse_url = λ raw. parsed (record { scheme = codes "http"; host = raw });
}

abbrev mirrors_all : Flags percent
mirrors_all = record (default_flags percent) {
  primary = codes "a";
  shadow = codes "b";
  sample = 100;
  scrub = codes "Card, ,x-session";
}

abbrev both : Upstreams
both =
    proxy_mode (record { scheme = codes "http"; host = codes "a" })
      (record { scheme = codes "http"; host = codes "b" })

starts :
    start percent reachable mirrors_all
    ≡ serving (folded percent mirrors_all) none default_rules both
unfolding start with_upstreams safety_config check_listen is_loopback folded validate rules
    upstreams parse_upstream split_list split_commas keep_parts bytes_beq
starts = refl

abbrev fresh : Program percent
fresh = begin percent small_runtime 1 mirrors_all (folded percent mirrors_all) default_rules

-- A request at the proxy, a capture from elsewhere, and a round of the sweeper.
abbrev mirrored : Requests percent
mirrored = after_arrival percent 5 false 0 get_orders (fresh.requests)

abbrev first : Program percent
first = record fresh { requests = mirrored }

-- A client that takes everything, and a multiplexer that knows two paths.
abbrev takes_all : List Bytes → Bytes → Option Failure
takes_all before p = none

abbrev picks : List Bytes → Bytes → Option Bytes
picks ps p = if p == codes "/stats" then some p else some (codes "/")

abbrev at_seven : Moment
at_seven = record { asked_at = 7; exists = false; now = 7; decode = λ b. none; replace = λ f b. b }

abbrev stats_asked : HttpRequest
stats_asked = record {
  path = codes "/stats";
  token = [];
  method = codes "GET";
  body = none;
  format = [];
  accept = [];
}

abbrev second : Program percent
second =
    put percent
      (after_capture 6 false 6 (side path_primary (codes "ok")) (λ f b. b) posted
        (view percent first))
      first

-- A question at /stats.
abbrev asked : Program percent
asked =
    put percent
      (record (view percent second) {
        service =
            (serve takes_all plain_formats keeping picks at_seven stats_asked
              (view percent second).service).0;
      })
      second

abbrev third : Program percent
third =
    put percent
      (record (view percent asked) { service = sweep_round 40 (view percent asked).service }) asked

path : Reach percent small_runtime both fresh third
path =
    next
      (next
        (next (next here (proxied tt {q = mirrored} (arrive 5 false 0 get_orders refl) tt refl))
          (served (capture 6 false 6 (side path_primary (codes "ok")) (λ f b. b) posted refl) refl))
        (routed takes_all plain_formats keeping picks at_seven stats_asked refl))
      (served (tick 40 refl) refl)

Reach-KeepsPromises_example : KeepsPromises percent small_runtime 1 mirrors_all default_rules third
Reach-KeepsPromises_example =
    Reach-KeepsPromises percent small_runtime 1 reachable mirrors_all (folded percent mirrors_all)
      none default_rules both starts path

-- The kill file appears at 10.
abbrev appears : Time → Bool
appears u = leb 10 u

as_it_is : IsTruePath percent small_runtime both appears path
unfolding path
as_it_is = ((((tt, refl), refl), refl), tt)

kill_file-stops_example :
    ((handle_capture 1_000_000_010
        (appears 1_000_000_010)
        1_000_000_011
        (side path_primary (codes "ok"))
        (λ f b. b)
        third.requests.proxy.server
        posted).0.buffer
      ≡ third.requests.proxy.server.buffer)
    × ((mirror percent 1_000_000_010 (appears 1_000_000_010) 0 (codes "GET") third.requests.proxy).1
        ≡ false)
kill_file-stops_example =
    kill_file-stops percent small_runtime both appears 1 mirrors_all default_rules path 10
      1_000_000_010 1_000_000_011 (side path_primary (codes "ok")) (λ f b. b) posted 0 (codes "GET")
      as_it_is (cc) (λ u h. ground arith) (omega arith)
