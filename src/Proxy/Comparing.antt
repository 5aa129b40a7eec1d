-- ===== src/Proxy/Comparing.antt =====
-- cmd/dark-canary/proxy.go: a mirrored request from its two answers to their comparison.
use dark_canary.Prelude.{
  ℕ, zero, suc, ◌+◌, ◌/◌, ◌<◌, ◌≡◌, ◌≢◌, refl, sym, ap, ◌∙◌, inl, inr, true, none, some, List, [],
  ◌∷◌, ◌++◌, Bytes, nat_eq, bytes_eq, ◌==◌, length, lookup, take, ltb, Bool-cases,
}
use dark_canary.Collector.Types.{Time, Capture, Pair}
use dark_canary.Collector.Buffer.{stamp}
use dark_canary.Collector.Invariant.{IsValid}
use dark_canary.Collector.Pairing.{pair_of, ingest-pairs, stamp_same}
use dark_canary.Diff.Runtime.{Runtime}
use dark_canary.Diff.Engine.{Engine, is_identical}
use dark_canary.Diff.Compare.{diff}
use dark_canary.Diff.Same.{diff_same}
use dark_canary.Diff.Quiet.{DecodesNumbers}
use dark_canary.Safety.Config.{Rates}
use dark_canary.Safety.Scrubber.{scrub_body, scrub_headers}
use dark_canary.Server.Capturing.{Server, limit, cleaned}
use dark_canary.Proxy.Number.{base36_loop, base36}
use dark_canary.Proxy.Tee.{joined, tee_reads-prefix}
use dark_canary.Proxy.Mirror.{
  Answer, Flight, Proxy, file, shadow_capture, primary_capture, capture_primary, end_shadow,
  end_primary,
}

loop_digits : (n m c : ℕ) (s : Bytes) → base36_loop n m (c ∷ s) ≢ []
unfolding base36_loop
loop_digits zero m c s = λ h. cc
loop_digits (suc n) m c s = elim (Bool-cases (ltb m 36)) [
  | inl last ↦ rw last (λ h. cc)
  | inr more ↦ rw more (loop_digits n (m / 36) _ (c ∷ s))
]

base36_digits : (n : ℕ) → base36 n ≢ []
unfolding base36 base36_loop
base36_digits n = elim (Bool-cases (ltb n 36)) [
  | inl last ↦ rw last (λ h. cc)
  | inr more ↦ rw more (loop_digits n (n / 36) _ [])
]

-- The time of a capture has no part in its response.
stamp_response :
    (now : Time) (c : Capture)
    → ((stamp now c).status ≡ c.status)
      × ((stamp now c).res_headers ≡ c.res_headers)
      × ((stamp now c).res_body ≡ c.res_body)
unfolding stamp
stamp_response now c = elim (Bool-cases (c.at == 0)) [
  | inl no_time ↦ rw no_time (refl, refl, refl)
  | inr own ↦ rw own (refl, refl, refl)
]

-- What the server makes of the two answers.
abbrev shadow_side : (Bytes → Bytes → Bytes) → Server → Flight → Answer → Capture
shadow_side replace s f a = cleaned replace s (shadow_capture s.max_body f a)

abbrev primary_side : (Bytes → Bytes → Bytes) → Server → Flight → Answer → Capture
primary_side replace s f a = cleaned replace s (primary_capture s.max_body f a)

-- The same answer, however it is cut into reads, is one response on both sides.
same_body :
    (replace : Bytes → Bytes → Bytes) (s : Server) (f : Flight) (a b : Answer)
    → joined a.reads ≡ joined b.reads
    → (primary_side replace s f b).res_body ≡ (shadow_side replace s f a).res_body
unfolding cleaned shadow_capture primary_capture
same_body replace s f a b same =
    ap (λ t. limit s.max_body (scrub_body replace s.fields t))
      (tee_reads-prefix s.max_body b.reads ∙ ap (take s.max_body) (sym same))

same_headers :
    (replace : Bytes → Bytes → Bytes) (s : Server) (f : Flight) (a b : Answer)
    → a.headers ≡ b.headers
    → (primary_side replace s f b).res_headers ≡ (shadow_side replace s f a).res_headers
unfolding cleaned shadow_capture primary_capture
same_headers replace s f a b same = ap (scrub_headers s.fields) (sym same)

same_status :
    (replace : Bytes → Bytes → Bytes) (s : Server) (f : Flight) (a b : Answer)
    → a.status ≡ b.status
    → (primary_side replace s f b).status ≡ (shadow_side replace s f a).status
unfolding cleaned shadow_capture primary_capture
same_status replace s f a b same = sym same

module _ (rates : Rates) where
  -- The channel after both answers of a request have come, in this order and in the other.
  abbrev pub shadow_first :
      Time → Time → (Bytes → Bytes → Bytes) → Flight → Answer → Answer → Proxy rates → List Pair
  shadow_first ts tp replace f a b p =
      (end_primary rates tp replace f b
        (end_shadow rates ts replace f (some a) p)).server.buffer.pairs

  abbrev pub primary_first :
      Time → Time → (Bytes → Bytes → Bytes) → Flight → Answer → Answer → Proxy rates → List Pair
  primary_first ts tp replace f a b p =
      (end_shadow rates ts replace f (some a)
        (end_primary rates tp replace f b p)).server.buffer.pairs

  module _ (rt : Runtime) (e : Engine) where
    -- One pair of the request comes into the channel, and it is identical.
    abbrev pub MakesIdentical : Flight → List Pair → List Pair → Type 0
    MakesIdentical f before after =
        (pair : Pair) × (after ≡ before ++ pair ∷ [])
        × (pair.correl_id ≡ base36 f.number)
        × (is_identical (diff rt e pair) ≡ true)

    -- In a server whose buffer has its invariant, holds nothing under the request's number and has room in
    -- its channel, and where the decoder reads no NaN: if the shadow's answer has the status, the headers
    -- and the body of the primary's, however each is cut into reads, and the two come within the timeout
    -- of each other, then, whichever comes first, one pair of that request comes into the channel, and
    -- `Diff` finds it identical under any rules.
    pub end_both-MakesIdentical :
        (ts tp : Time) (replace : Bytes → Bytes → Bytes) (f : Flight) (a b : Answer)
        (p : Proxy rates)
        → IsValid p.server.buffer
        → lookup (base36 f.number) p.server.buffer.pending ≡ none
        → tp < ts + p.server.buffer.opts.timeout
        → ts < tp + p.server.buffer.opts.timeout
        → length p.server.buffer.pairs < p.server.buffer.opts.buffer
        → a.status ≡ b.status
        → a.headers ≡ b.headers
        → joined a.reads ≡ joined b.reads
        → DecodesNumbers rt
        → MakesIdentical f p.server.buffer.pairs (shadow_first ts tp replace f a b p)
          × MakesIdentical f p.server.buffer.pairs (primary_first ts tp replace f a b p)
    unfolding end_shadow end_primary file capture_primary cleaned shadow_capture primary_capture
    end_both-MakesIdentical ts tp replace f a b p valid absent lp ls free status headers body
          numbers =
        let s = p.server in
        let cp = primary_side replace s f b in
        let cs = shadow_side replace s f a in
        let (after_primary, after_shadow, _, _) =
          ingest-pairs tp ts cp cs valid refl refl (base36_digits f.number) refl absent lp ls
            free in
        let (st, hd, bd) = stamp_response tp cp in
        let (st', hd', bd') = stamp_response ts cs in
        let pair = pair_of (stamp tp cp) (stamp ts cs) in
        let identical =
          diff_same rt e pair numbers (st ∙ same_status replace s f a b status ∙ sym st')
            (hd ∙ same_headers replace s f a b headers ∙ sym hd')
            (bd ∙ same_body replace s f a b body ∙ sym bd') in
        let id = (stamp_same tp cp).0 in
        ((pair, after_shadow, id, identical), (pair, after_primary, id, identical))
