-- ===== src/Server/Capturing.antt =====
-- cmd/dark-canary/main.go: `handleCapture`, with `authorised`, `ingest` and `limit`. The JSON decoder,
-- the regexp replacement and the state of the kill file are arguments.
use dark_canary.Prelude.{
  ℕ, ◌+◌, ◌-◌, ◌*◌, ◌%◌, Bool, not, ◌&&◌, ◌||◌, Option, none, some, List, [], ◌∷◌, Bytes, codes,
  nat_eq, bytes_eq, ◌==◌, if◌then◌else◌, leb, ltb, length, take, map, contains,
}
use dark_canary.Collector.Types.{Time, Capture, Buffer}
use dark_canary.Collector.Buffer.{ingest}
use dark_canary.Safety.KillSwitch.{KillSwitch, engaged_at}
use dark_canary.Safety.Scrubber.{scrub_body, scrub_headers}

-- The fields of the source's `server` and `safety.Config` that the handler reads.
pub record Server : Type 0 where
  pub reads_only : Bool
  pub max_body : ℕ
  pub fields : List Bytes
  pub token : Bytes
  pub kill : KillSwitch
  pub buffer : Buffer

-- The token header, the method, and the body; `none` is a body that cannot be read.
pub record Request : Type 0 where
  pub token : Bytes
  pub method : Bytes
  pub body : Option Bytes

abbrev pub idempotent : List Bytes
idempotent = codes "GET" ∷ codes "HEAD" ∷ codes "OPTIONS" ∷ []

-- `strings.ToUpper` on ASCII text.
unfoldable pub to_upper : Bytes → Bytes
to_upper s = map (λ c. if leb b'a' c && leb c b'z' then c - 32 else c) s

-- The test of the reads-only mode.
unfoldable pub is_read : Bytes → Bool
unfolding to_upper
is_read method = method == [] || contains (to_upper method) idempotent

unfoldable pub authorised : Server → Request → Bool
authorised s r = s.token == [] || r.token == s.token

unfoldable pub limit : ℕ → Bytes → Bytes
limit max_body b = if ltb max_body (length b) then take max_body b else b

-- What `ingest` makes of a capture before it is filed.
unfoldable pub cleaned : (Bytes → Bytes → Bytes) → Server → Capture → Capture
unfolding limit scrub_body scrub_headers
cleaned replace s c = record c {
  req_body = limit s.max_body (scrub_body replace s.fields c.req_body);
  res_body = limit s.max_body (scrub_body replace s.fields c.res_body);
  req_headers = scrub_headers s.fields c.req_headers;
  res_headers = scrub_headers s.fields c.res_headers;
}

-- The end of the handler: the reads-only guard, then `ingest`.
unfoldable pub admit : Time → (Bytes → Bytes → Bytes) → Server → Capture → Server × ℕ
unfolding is_read cleaned
admit now replace s c =
    if s.reads_only && not (is_read c.method)
    then (s, 403)
    else (record s { buffer = ingest now (cleaned replace s c) s.buffer }, 202)

-- Go's `int64`, and a limit for `io.LimitReader` in it: what has wrapped around to a negative number
-- reads nothing.
abbrev pub int64_size : ℕ
int64_size = 9_223_372_036_854_775_808

unfoldable pub read_limit : ℕ → ℕ
read_limit n =
    if ltb (n % (int64_size + int64_size)) int64_size then n % (int64_size + int64_size) else 0

-- The middle of the handler: the body is read up to a limit and decoded.
unfoldable pub read_capture :
    Time → (Bytes → Option Capture) → (Bytes → Bytes → Bytes) → Server → Request → Server × ℕ
unfolding admit read_limit
read_capture now decode replace s r = elim (r.body) [
  | none ↦ (s, 400)
  | some b ↦ elim (decode (take (read_limit (s.max_body * 2 + 1024)) b)) [
    | none ↦ (s, 400)
    | some c ↦ admit now replace s c
  ]
]

-- `handleCapture`, with the status that it writes. The kill switch and the buffer read the clock one
-- after the other.
unfoldable pub handle_capture :
    Time
    → Bool
    → Time
    → (Bytes → Option Capture)
    → (Bytes → Bytes → Bytes)
    → Server
    → Request
    → Server × ℕ
unfolding authorised read_capture
handle_capture asked_at exists now decode replace s r =
    let (kill, on) = engaged_at asked_at exists s.kill in
    let s' : Server = record s { kill = kill } in
    if not (authorised s r)
    then (s, 401)
    else if not (r.method == codes "POST")
    then (s, 405)
    else if on
    then (s', 503)
    else read_capture now decode replace s' r
