-- ===== src/Proxy/Tee.antt =====
-- cmd/dark-canary/proxy.go: `teeBody`. A read hands over some bytes, and the tee keeps the first ones.
use dark_canary.Prelude.{
  ℕ, zero, suc, ◌-◌, ◌≡◌, refl, sym, ap, ◌∙◌, ◌&&◌, List, [], ◌∷◌, ◌++◌, arith, Bytes,
  if◌then◌else◌, ltb, length, take, append_assoc, append-nil, Bool-cases, inl, inr,
}

abbrev lesser : ℕ → ℕ → ℕ
lesser a b = if ltb a b then a else b

-- `Read`, for the bytes that the underlying reader has put into `b`.
unfoldable pub tee_read : ℕ → Bytes → Bytes → Bytes
tee_read max b kept =
    if ltb 0 (length b) && ltb (length kept) max
    then kept ++ take (lesser (length b) (max - length kept)) b
    else kept

-- All the reads of a response.
unfoldable pub tee_reads : ℕ → List Bytes → Bytes → Bytes
tee_reads max [] kept = kept
tee_reads max (b ∷ bs) kept = tee_reads max bs (tee_read max b kept)

-- What the client gets.
unfoldable pub joined : List Bytes → Bytes
joined [] = []
joined (b ∷ bs) = b ++ joined bs

take-lesser : (n : ℕ) (b : Bytes) → take (lesser (length b) n) b ≡ take n b
take-lesser zero b = ground arith
take-lesser (suc n) [] = ground arith
take-lesser (suc n) (x ∷ b) = ground (arith, take-lesser n b)

take-nil : (n : ℕ) → take {A = ℕ} n [] ≡ []
take-nil zero = refl
take-nil (suc n) = refl

take-zero : (n : ℕ) (b : Bytes) → n ≡ 0 → take n b ≡ []
take-zero zero b h = refl
take-zero (suc n) b h = absurd (omega arith)

tee_read_lem : (max : ℕ) (b kept : Bytes) → tee_read max b kept ≡ kept ++ take (max - length kept) b
unfolding tee_read
tee_read_lem max [] kept = ground (arith, take-nil (max - length kept), append-nil kept)
tee_read_lem max (x ∷ b) kept = elim (Bool-cases (ltb (length kept) max)) [
  | inl free ↦ ground (arith, take-lesser (max - length kept) (x ∷ b))
  | inr full ↦ ground (arith, take-zero (max - length kept) (x ∷ b), append-nil kept)
]

take-append :
    (max : ℕ) (xs b : Bytes)
    → take max (xs ++ b) ≡ take max xs ++ take (max - length (take max xs)) b
take-append zero xs b = refl
take-append (suc max) [] b =
    let whole : suc max ≡ suc max - 0 = omega arith in ap (λ n. take n b) whole
take-append (suc max) (x ∷ xs) b = ground (arith, take-append max xs b)

tee_reads_from :
    (max : ℕ) (bs : List Bytes) (before : Bytes)
    → tee_reads max bs (take max before) ≡ take max (before ++ joined bs)
unfolding tee_reads joined
tee_reads_from max [] before = ap (take max) (sym (append-nil before))
tee_reads_from max (b ∷ bs) before =
    ap (tee_reads max bs) (tee_read_lem max b (take max before) ∙ sym (take-append max before b))
    ∙ tee_reads_from max bs (before ++ b)
    ∙ ap (take max) (append_assoc before b (joined bs))

-- However the response is cut into reads, what the tee keeps is its first `max` bytes.
pub tee_reads-prefix : (max : ℕ) (bs : List Bytes) → tee_reads max bs [] ≡ take max (joined bs)
tee_reads-prefix max bs = ap (tee_reads max bs) (sym (take-nil max)) ∙ tee_reads_from max bs []
