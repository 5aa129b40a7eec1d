-- ===== src/Proxy/Mirror.antt =====
-- cmd/dark-canary/proxy.go: `proxy`, `mirror`, and `ServeHTTP`, `mirrorToShadow` and `capturePrimary`
-- cut where other goroutines run between. Go's reverse proxy and HTTP client are outside: what they
-- answer is an argument.
use dark_canary.Prelude.{
  ℕ, zero, suc, ◌+◌, ◌-◌, ◌%◌, ◌||◌, ◌∷◌, ◌++◌, Bool, true, false, not, ◌&&◌, Option, none, some,
  List, [], Bytes, nat_eq, bytes_eq, if◌then◌else◌, ltb, length, take, contains,
}
use dark_canary.Collector.Types.{Time, Headers, Capture, path_primary, path_shadow}
use dark_canary.Collector.Buffer.{ingest}
use dark_canary.Safety.Config.{Rates}
use dark_canary.Safety.KillSwitch.{engaged_at}
use dark_canary.Server.Capturing.{read_limit, Server, idempotent, cleaned}
use dark_canary.Proxy.Number.{base36}
use dark_canary.Proxy.Tee.{tee_reads, joined}

-- What can still be read of a body: some bytes, then its end or an error.
pub record Stream : Type 0 where
  pub bytes : Bytes
  pub fails : Bool

-- What the proxy reads of a request. `none` is a nil body.
pub record Incoming : Type 0 where
  pub method : Bytes
  pub url : Bytes
  pub headers : Headers
  pub body : Option Stream

-- What it reads of a response, whose body comes in several reads, and of the request that was sent for
-- it: the reverse proxy rewrites the URL and the headers, and keeps the method.
pub record Answer : Type 0 where
  pub sent_url : Bytes
  pub sent_headers : Headers
  pub status : ℕ
  pub headers : Headers
  pub reads : List Bytes

-- A request that is mirrored, with its number and the body that is replayed.
pub record Flight : Type 0 where
  pub number : ℕ
  pub method : Bytes
  pub url : Bytes
  pub headers : Headers
  pub body : Bytes

-- `slots` is the capacity of the channel and `used` the number of its elements.
pub record Proxy (rates : Rates) : Type 0 where
  pub server : Server
  pub rate : rates.Rate
  pub slots : ℕ
  pub used : ℕ
  pub n : ℕ
  pub skipped : ℕ

-- `n` is a 64-bit counter.
abbrev pub uint64_size : ℕ
uint64_size = 18_446_744_073_709_551_616

-- `server.ingest`
unfoldable pub file : Time → (Bytes → Bytes → Bytes) → Capture → Server → Server
unfolding cleaned
file now replace c s = record s { buffer = ingest now (cleaned replace s c) s.buffer }

-- The shadow's capture. Its response is read up to the limit, and no further than it could be.
unfoldable pub shadow_capture : ℕ → Flight → Answer → Capture
shadow_capture max_body f a = record {
  path = path_shadow;
  correl_id = base36 f.number;
  method = f.method;
  url = f.url;
  req_headers = f.headers;
  req_body = f.body;
  status = a.status;
  res_headers = a.headers;
  res_body = take max_body (joined a.reads);
  latency = 0;
  at = 0;
}

-- `capturePrimary`: what the tee hands over on `Close`.
unfoldable pub primary_capture : ℕ → Flight → Answer → Capture
primary_capture max_body f a = record {
  path = path_primary;
  correl_id = base36 f.number;
  method = f.method;
  url = a.sent_url;
  req_headers = a.sent_headers;
  req_body = [];
  status = a.status;
  res_headers = a.headers;
  res_body = tee_reads max_body a.reads [];
  latency = 0;
  at = 0;
}

-- `capturePrimary`: a response is captured if its request carries a number.
unfoldable pub capture_primary : ℕ → Option Flight → Answer → Option Capture
unfolding primary_capture
capture_primary max_body none a = none
capture_primary max_body (some f) a = some (primary_capture max_body f a)

-- What a reader of at most so many bytes leaves.
unfoldable pub rest_of : ℕ → Bytes → Bytes
rest_of zero b = b
rest_of (suc n) [] = []
rest_of (suc n) (c ∷ b) = rest_of n b

-- The test after the limited read: it has met the error, or more bytes than the limit.
unfoldable pub is_unfit : ℕ → Stream → Bool
unfolding read_limit
is_unfit max_body b =
    let got = take (read_limit (max_body + 1)) b.bytes in
    (b.fails && ltb (length got) (read_limit (max_body + 1))) || ltb max_body (length got)

-- The body that is replayed to the shadow, if the request is mirrored after all.
unfoldable pub replayed : ℕ → Option Stream → Option Bytes
unfolding is_unfit read_limit
replayed max_body none = some []
replayed max_body (some b) =
    if is_unfit max_body b then none else some (take (read_limit (max_body + 1)) b.bytes)

-- The body that the primary is sent: what was read, and what is left of the stream if that did not do.
unfoldable pub forwarded : ℕ → Option Stream → Option Stream
unfolding is_unfit read_limit rest_of
forwarded max_body none = none
forwarded max_body (some b) =
    let got = take (read_limit (max_body + 1)) b.bytes in
    if is_unfit max_body b
    then some
        (record { bytes = got ++ rest_of (read_limit (max_body + 1)) b.bytes; fails = b.fails })
    else some (record { bytes = got; fails = false })

module _ (rates : Rates) where
  -- The `select` of `mirror`.
  unfoldable pub take_slot : Proxy rates → Proxy rates × Bool
  take_slot p =
      if ltb p.used p.slots
      then (record p { used = p.used + 1 }, true)
      else (record p { skipped = p.skipped + 1 }, false)

  -- `mirror`, at a time, with the kill file there or not, and with the number that is drawn.
  unfoldable pub mirror : Time → Bool → rates.Rate → Bytes → Proxy rates → Proxy rates × Bool
  unfolding take_slot
  mirror t exists draw method p =
      let (kill, on) = engaged_at t exists p.server.kill in
      let p' : Proxy rates = record p { server = record (p.server) { kill = kill } } in
      if on
      then (p', false)
      else if p.server.reads_only && not (contains method idempotent)
      then (p', false)
      else if rates.below_one p.rate && rates.at_least draw p.rate
      then (p', false)
      else take_slot p'

  -- `<-p.slots`
  abbrev pub release : Proxy rates → Proxy rates
  release p = record p { used = p.used - 1 }

  -- `ServeHTTP` once it holds a slot: the number, then the body, then the shadow's goroutine; or the
  -- slot is given back.
  unfoldable pub launch : Incoming → Proxy rates → Proxy rates × Option Flight
  unfolding replayed
  launch r p =
      let number = (p.n + 1) % uint64_size in
      let counted : Proxy rates = record p { n = number } in
      elim (replayed p.server.max_body r.body) [
        | none ↦ (record counted { used = counted.used - 1; skipped = counted.skipped + 1 }, none)
        | some b ↦ (
          counted,
          some (record {
            number = number;
            method = r.method;
            url = r.url;
            headers = r.headers;
            body = b;
          }),
        )
      ]

  -- `mirrorToShadow`; `none` is a shadow that refuses the request.
  unfoldable pub end_shadow :
      Time → (Bytes → Bytes → Bytes) → Flight → Option Answer → Proxy rates → Proxy rates
  unfolding file shadow_capture
  end_shadow now replace f none p = release p
  end_shadow now replace f (some a) p =
      release
        (record p { server = file now replace (shadow_capture p.server.max_body f a) p.server })

  -- The end of the primary's response.
  unfoldable pub end_primary :
      Time → (Bytes → Bytes → Bytes) → Flight → Answer → Proxy rates → Proxy rates
  unfolding file capture_primary
  end_primary now replace f a p = elim (capture_primary p.server.max_body (some f) a) [
    | none ↦ p
    | some c ↦ record p { server = file now replace c p.server }
  ]

  -- `ServeHTTP`, up to the primary's answer: whether the request is mirrored, and the body that the
  -- primary is sent.
  unfoldable pub serve_http :
      Time
      → Bool
      → rates.Rate
      → Incoming
      → Proxy rates
      → Proxy rates × Option Flight × Option Stream
  unfolding mirror launch forwarded
  serve_http t exists draw r p =
      let (decided, go) = mirror t exists draw r.method p in
      let (launched, f) = launch r decided in
      if not go then (decided, none, r.body) else (launched, f, forwarded p.server.max_body r.body)
