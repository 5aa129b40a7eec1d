-- ===== src/Proxy/Closing.antt =====
-- cmd/dark-canary/proxy.go: `teeBody` over its life: `Read` and `Close`, in any order.
use dark_canary.Prelude.{
  ℕ, ◌≡◌, refl, sym, ap, ◌∙◌, Bool, true, false, List, [], ◌∷◌, ◌++◌, Bytes, take, if◌then◌else◌,
}
use dark_canary.Proxy.Tee.{tee_read, tee_reads, joined, tee_reads-prefix}

-- What is kept, and whether `done` is still set.
pub record Tee : Type 0 where
  pub kept : Bytes
  pub armed : Bool

-- A `Read` that gets some bytes from the response, or a `Close`.
pub data Call : Type 0 where
  got : Bytes → Call
  close : Call

-- A call, with what `done` is given.
unfoldable pub call : ℕ → Call → Tee → Tee × List Bytes
unfolding tee_read
call max (got b) t = (record t { kept = tee_read max b t.kept }, [])
call max close t = if t.armed then (record t { armed = false }, t.kept ∷ []) else (t, [])

unfoldable pub calls : ℕ → List Call → Tee → Tee × List Bytes
unfolding call
calls max [] t = (t, [])
calls max (c ∷ cs) t =
    let (t', handed) = call max c t in let (t'', more) = calls max cs t' in (t'', handed ++ more)

-- What `capturePrimary` puts around the body.
abbrev pub fresh_tee : Tee
fresh_tee = record { kept = []; armed = true }

-- The bytes of the reads before the first `Close`, in one piece, if there is a `Close`.
unfoldable pub handed_over : ℕ → List Call → List Bytes → List Bytes
unfolding joined
handed_over max [] before = []
handed_over max (got b ∷ cs) before = handed_over max cs (before ++ b ∷ [])
handed_over max (close ∷ cs) before = take max (joined before) ∷ []

disarmed :
    (max : ℕ) (cs : List Call) (kept : Bytes)
    → (calls max cs (record { kept = kept; armed = false })).1 ≡ []
unfolding calls call
disarmed max [] kept = refl
disarmed max (got b ∷ cs) kept = disarmed max cs (tee_read max b kept)
disarmed max (close ∷ cs) kept = disarmed max cs kept

tee_reads-append :
    (max : ℕ) (bs : List Bytes) (b kept : Bytes)
    → tee_reads max (bs ++ b ∷ []) kept ≡ tee_read max b (tee_reads max bs kept)
unfolding tee_reads
tee_reads-append max [] b kept = refl
tee_reads-append max (c ∷ bs) b kept = tee_reads-append max bs b (tee_read max c kept)

calls_from :
    (max : ℕ) (cs : List Call) (before : List Bytes) (kept : Bytes)
    → kept ≡ tee_reads max before []
    → (calls max cs (record { kept = kept; armed = true })).1 ≡ handed_over max cs before
unfolding calls call handed_over
calls_from max [] before kept h = refl
calls_from max (got b ∷ cs) before kept h =
    calls_from max cs (before ++ b ∷ []) (tee_read max b kept)
      (ap (tee_read max b) h ∙ sym (tee_reads-append max before b []))
calls_from max (close ∷ cs) before kept h =
    ap (λ rest. kept ∷ rest) (disarmed max cs kept)
    ∙ ap (λ k. k ∷ []) (h ∙ tee_reads-prefix max before)

-- However reads and closes of the primary's response follow one another: `done` is given the first
-- `max` bytes of the reads before the first `Close`, however they were cut, once if there is a `Close`
-- and never if there is none.
pub calls-handed_over :
    (max : ℕ) (cs : List Call) → (calls max cs fresh_tee).1 ≡ handed_over max cs []
unfolding tee_reads
calls-handed_over max cs = calls_from max cs [] [] refl
