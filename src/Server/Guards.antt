-- ===== src/Server/Guards.antt =====
-- cmd/dark-canary/main.go: what the handler lets into the buffer.
use dark_canary.Prelude.{
  ℕ, ◌+◌, ◌*◌, ◌≤◌, ◌≡◌, inl, inr, Bool, true, not, ◌&&◌, ◌||◌, Option, List, arith, Bytes, codes,
  nat_eq, bytes_eq, ◌==◌, length, length-take-le, take, All, Bool-cases, Option-cases,
}
use dark_canary.Collector.Types.{Time, Capture, Buffer}
use dark_canary.Collector.Buffer.{stamp}
use dark_canary.Collector.Invariant.{IsValid}
use dark_canary.Collector.Contents.{Contains, ingest-Contains}
use dark_canary.Safety.KillSwitch.{engaged_at}
use dark_canary.Safety.Scrubber.{scrub_body, IsScrubbed, scrub_headers-IsScrubbed}
use dark_canary.Server.Capturing.{
  read_limit, Server, Request, is_read, authorised, limit, cleaned, admit, read_capture,
  handle_capture,
}

-- A capture that may be stored: both bodies within the limit, no header with a credential or a
-- configured field left, and, in reads-only mode, a method that only reads, or none.
pub record IsClean (max_body : ℕ) (fields : List Bytes) (reads_only : Bool) (c : Capture)
    : Type 0 where
  pub req_bound : length c.req_body ≤ max_body
  pub res_bound : length c.res_body ≤ max_body
  pub req_scrubbed : All (IsScrubbed fields) c.req_headers
  pub res_scrubbed : All (IsScrubbed fields) c.res_headers
  pub reads : (not reads_only || is_read c.method) ≡ true

-- Every capture that the buffer holds may be stored.
abbrev pub Stores : Server → Buffer → Type 0
Stores s b = Contains (IsClean s.max_body s.fields s.reads_only) b

length-limit : (max_body : ℕ) (b : Bytes) → length (limit max_body b) ≤ max_body
unfolding limit
length-limit max_body b = ground (arith, length-take-le max_body b)

pub cleaned-IsClean :
    (replace : Bytes → Bytes → Bytes) (s : Server) (c : Capture)
    → (not s.reads_only || is_read c.method) ≡ true
    → IsClean s.max_body s.fields s.reads_only (cleaned replace s c)
unfolding cleaned
cleaned-IsClean replace s c h = record {
  req_bound = length-limit s.max_body (scrub_body replace s.fields c.req_body);
  res_bound = length-limit s.max_body (scrub_body replace s.fields c.res_body);
  req_scrubbed = scrub_headers-IsScrubbed s.fields c.req_headers;
  res_scrubbed = scrub_headers-IsScrubbed s.fields c.res_headers;
  reads = h;
}

pub stamp-IsClean :
    {max_body : ℕ} {fields : List Bytes} {reads_only : Bool} (now : Time) (c : Capture)
    → IsClean max_body fields reads_only c
    → IsClean max_body fields reads_only (stamp now c)
unfolding stamp
stamp-IsClean now c h = elim (Bool-cases (c.at == 0)) [
  | inl zero_time ↦ rw zero_time (record {
    req_bound = h.req_bound;
    res_bound = h.res_bound;
    req_scrubbed = h.req_scrubbed;
    res_scrubbed = h.res_scrubbed;
    reads = h.reads;
  })
  | inr own ↦ rw own h
]

admit-Stores :
    (now : Time) (replace : Bytes → Bytes → Bytes) (s : Server) (c : Capture)
    → IsValid s.buffer
    → Stores s s.buffer
    → Stores s (admit now replace s c).0.buffer
unfolding admit
admit-Stores now replace s c v h = elim (Bool-cases (s.reads_only && not (is_read c.method))) [
  | inl refused ↦ rw refused h
  | inr let_in ↦ rw let_in (
      ingest-Contains _ now (cleaned replace s c) v
        (stamp-IsClean now (cleaned replace s c) (cleaned-IsClean replace s c (ground arith))) h)
]

read_capture-Stores :
    (now : Time) (decode : Bytes → Option Capture) (replace : Bytes → Bytes → Bytes) (s : Server)
    (r : Request)
    → IsValid s.buffer
    → Stores s s.buffer
    → Stores s (read_capture now decode replace s r).0.buffer
unfolding read_capture
read_capture-Stores now decode replace s r v h = elim (Option-cases (r.body)) [
  | inl unread ↦ rw (unread, read_capture) h
  | inr (b, e) ↦ elim (Option-cases (decode (take (read_limit (s.max_body * 2 + 1024)) b))) [
    | inl bad ↦ rw (e, read_capture, bad) h
    | inr (c, good) ↦ rw (e, read_capture, good) (admit-Stores now replace s c v h)
  ]
]

-- If the buffer has its invariant and every capture in it is within the limits, free of credentials and of the configured
-- fields in its headers and, in reads-only mode, of a request that reads, then so is every one after
-- the handler, whatever the request says.
pub handle_capture-Stores :
    (asked_at : Time) (exists : Bool) (now : Time) (decode : Bytes → Option Capture)
    (replace : Bytes → Bytes → Bytes) (s : Server) (r : Request)
    → IsValid s.buffer
    → Stores s s.buffer
    → Stores s (handle_capture asked_at exists now decode replace s r).0.buffer
unfolding handle_capture
handle_capture-Stores asked_at exists now decode replace s r v h =
    let (kill, on) = engaged_at asked_at exists s.kill in
    let rest = read_capture-Stores now decode replace (record s { kill = kill }) r v h in
    elim (Bool-cases (authorised s r)) [
      | inr out ↦ rw out h
      | inl known ↦ rw known (elim (Bool-cases (r.method == codes "POST")) [
        | inr other ↦ rw other h
        | inl post ↦
            rw post
              (elim (Bool-cases on) [ inl stopped ↦ rw stopped h | inr running ↦ rw running rest ])
      ])
    ]
