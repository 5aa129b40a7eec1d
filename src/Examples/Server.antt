-- ===== src/Examples/Server.antt =====
-- A server without a token, a kill switch whose file appears, and a capture with a cookie.
use dark_canary.Prelude.{
  ◌+◌, ◌≡◌, ◌≢◌, refl, ◌⊎◌, true, false, some, Option, [], ◌∷◌, Bytes, codes, arith,
}
use dark_canary.Collector.Types.{Capture, path_primary}
use dark_canary.Collector.Buffer.{new}
use dark_canary.Collector.Invariant.{IsValid}
use dark_canary.Safety.KillSwitch.{fresh, engaged_at}
use dark_canary.Server.Capturing.{Server, Request, handle_capture}
use dark_canary.Server.Guards.{Stores, handle_capture-Stores}
use dark_canary.Server.Outcomes.{PassesGuards, handle_capture-settles}

abbrev pub small_server : Server
small_server = record {
  reads_only = true;
  max_body = 16;
  fields = codes "email" ∷ [];
  token = [];
  kill = fresh (codes "/etc/dark-canary/kill") 0;
  buffer = new (record { timeout = 10; max_pending = 1; buffer = 1 });
}

abbrev with_cookie : Capture
with_cookie = record {
  path = path_primary;
  correl_id = codes "a";
  method = codes "get";
  url = codes "/orders";
  req_headers = (codes "Cookie", codes "session" ∷ []) ∷ [];
  req_body = [];
  status = 200;
  res_headers = [];
  res_body = codes "a body of more than sixteen bytes";
  latency = 3;
  at = 0;
}

abbrev post : Request
post = record { token = []; method = codes "POST"; body = some (codes "{}") }

abbrev decode_one : Bytes → Option Capture
decode_one b = some with_cookie

abbrev replace_none : Bytes → Bytes → Bytes
replace_none f b = b

pub small_server-IsValid : IsValid small_server.buffer
unfolding new
small_server-IsValid = record {
  aligned = refl;
  distinct = tt;
  bounded = omega arith;
  room = omega arith;
  backlog = omega arith;
  filed = tt;
  matched = tt;
}

pub small_server-Stores : Stores small_server small_server.buffer
unfolding new
small_server-Stores = (tt, tt)

handle_capture-Stores_example :
    Stores small_server
      (handle_capture 5 false 6 decode_one replace_none small_server post).0.buffer
handle_capture-Stores_example =
    handle_capture-Stores 5 false 6 decode_one replace_none small_server post small_server-IsValid
      small_server-Stores

handle_capture-settles_example :
    (PassesGuards small_server post (engaged_at 5 false small_server.kill).1
      × ((handle_capture 5 false 6 decode_one replace_none small_server post).1 ≡ 202)
      × ((handle_capture 5 false 6 decode_one replace_none small_server
            post).0.buffer.stats.received
          ≡ small_server.buffer.stats.received + 1))
    ⊎ (((handle_capture 5 false 6 decode_one replace_none small_server post).1 ≢ 202)
        × ((handle_capture 5 false 6 decode_one replace_none small_server post).0.buffer
            ≡ small_server.buffer))
handle_capture-settles_example =
    handle_capture-settles 5 false 6 decode_one replace_none small_server post small_server-IsValid
