-- ===== src/Examples/Proxy.antt =====
-- A proxy with one slot, and a request through it.
use dark_canary.Prelude.{
  ℕ, List, ◌≡◌, refl, false, none, some, [], ◌∷◌, ◌++◌, codes, arith, contains, bytes_beq, ◌*◌, ◌-◌,
  ◌+◌,
}
use dark_canary.Safety.KillSwitch.{engaged_at}
use dark_canary.Examples.Server.{small_server, small_server-IsValid, small_server-Stores}
use dark_canary.Examples.Command.{percent}
use dark_canary.Proxy.Mirror.{
  Incoming, Flight, Proxy, take_slot, mirror, replayed, launch, serve_http,
}
use dark_canary.Proxy.Forwarding.{IsReplayed, serve_http-IsReplayed}
use dark_canary.Server.Safe.{IsSafe}
use dark_canary.Proxy.Tee.{joined}
use dark_canary.Proxy.Closing.{Call, got, close, calls, fresh_tee, handed_over, calls-handed_over}
use dark_canary.Proxy.System.{
  System, idle, after_arrival, after_launch, arrive, read_body, shadow_done, after_shadow,
  primary_failed, after_failure, Reach, here, next,
}
use dark_canary.Proxy.Mirroring.{IsOrderly}
use dark_canary.Proxy.Orderly.{Reach-IsOrderly}

abbrev last_of_three : ℕ
last_of_three = 36 * 1296 - 1

abbrev same_number : ℕ
same_number = 35 * 1296 + 1295

abbrev pub one_slot : Proxy percent
one_slot = record { server = small_server; rate = 100; slots = 1; used = 0; n = 0; skipped = 0 }

abbrev pub get_orders : Incoming
get_orders = record {
  method = codes "GET";
  url = codes "/orders";
  headers = [];
  body = some (record { bytes = codes "a body"; fails = false });
}

abbrev pub orders : Flight
orders = record {
  number = 1;
  method = codes "GET";
  url = codes "/orders";
  headers = [];
  body = codes "a body";
}

one_slot-IsSafe : IsSafe one_slot.server
one_slot-IsSafe = record { valid = small_server-IsValid; stores = small_server-Stores }

abbrev arrived : System percent
arrived = after_arrival percent 5 false 0 get_orders (idle percent one_slot)

abbrev sent : System percent
sent = after_launch percent get_orders [] arrived

held : arrived.holding ≡ [] ++ get_orders ∷ []
unfolding mirror take_slot engaged_at contains bytes_beq
held = refl

flying : sent.shadows ≡ [] ++ orders ∷ []
unfolding mirror take_slot engaged_at contains bytes_beq launch replayed
flying = refl

waiting : sent.primaries ≡ [] ++ orders ∷ []
unfolding mirror take_slot engaged_at contains bytes_beq launch replayed
waiting = refl

-- The shadow refuses, and the primary fails.
abbrev refused : System percent
refused = after_shadow percent 9 (λ f b. b) orders [] none sent

abbrev finished : System percent
finished = after_failure percent [] refused

path : Reach percent (idle percent one_slot) finished
path =
    next
      (next
        (next (next here (arrive 5 false 0 get_orders refl)) (read_body [] get_orders [] held refl))
        (shadow_done 9 (λ f b. b) [] orders [] none flying refl))
      (primary_failed [] orders [] waiting refl)

Reach-IsOrderly_example : IsOrderly percent finished
Reach-IsOrderly_example = Reach-IsOrderly percent one_slot one_slot-IsSafe refl refl path

-- The client hangs up, and the response is read and closed once more.
abbrev hangs_up : List Call
hangs_up = got (codes "first ") ∷ got (codes "second") ∷ close ∷ got (codes " third") ∷ close ∷ []

calls-handed_over_example : (calls 8 hangs_up fresh_tee).1 ≡ handed_over 8 hangs_up []
calls-handed_over_example = calls-handed_over 8 hangs_up

hands_over : handed_over 8 hangs_up [] ≡ codes "first se" ∷ []
unfolding handed_over joined
hands_over = refl

serve_http-IsReplayed_example :
    ((serve_http percent 5 false 0 get_orders one_slot).2 ≡ get_orders.body)
    × IsReplayed percent get_orders one_slot
        (serve_http percent 5 false 0 get_orders one_slot).0
        (serve_http percent 5 false 0 get_orders one_slot).1
serve_http-IsReplayed_example =
    serve_http-IsReplayed percent 5 false 0 get_orders one_slot (omega arith)
