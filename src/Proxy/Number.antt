-- ===== src/Proxy/Number.antt =====
-- cmd/dark-canary/proxy.go: `strconv.FormatUint(n, 36)`, the correlation id of a request's number.
use dark_canary.Prelude.{
  ℕ, zero, suc, ◌+◌, ◌-◌, ◌*◌, ◌/◌, ◌%◌, ◌<◌, ◌≡◌, ap, ◌∙◌, inl, inr, [], ◌∷◌, arith, Bytes,
  if◌then◌else◌, ltb, Bool-cases,
}

-- `0` to `9`, then `a` to `z`.
unfoldable pub digit36 : ℕ → ℕ
digit36 d = if ltb d 10 then b'0' + d else b'a' + (d - 10)

-- The digits in front of `out`; the fuel is more than their number.
unfoldable pub base36_loop : ℕ → ℕ → Bytes → Bytes
base36_loop zero n out = out
base36_loop (suc f) n out =
    let more = base36_loop f (n / 36) (digit36 (n % 36) ∷ out) in
    if ltb n 36 then digit36 n ∷ out else more

unfoldable pub base36 : ℕ → Bytes
unfolding base36_loop digit36
base36 n = base36_loop (suc n) n []

-- The value of a digit, and of digits behind what has been read.
abbrev value36 : ℕ → ℕ
value36 c = if ltb c b'a' then c - b'0' else c - b'a' + 10

unfoldable pub read36 : ℕ → Bytes → ℕ
read36 acc [] = acc
read36 acc (c ∷ s) = read36 (acc * 36 + value36 c) s

value36-digit36 : (d : ℕ) → d < 36 → value36 (digit36 d) ≡ d
unfolding digit36
value36-digit36 d h = ground arith

read36-loop : (f n : ℕ) (out : Bytes) → n < f → read36 0 (base36_loop f n out) ≡ read36 n out
unfolding base36_loop read36
read36-loop zero n out h = absurd (omega arith)
read36-loop (suc f) n out h = elim (Bool-cases (ltb n 36)) [
  | inl last ↦
      let same : 0 * 36 + value36 (digit36 n) ≡ n =
        omega (arith, value36-digit36 n (ground arith)) in
      rw last (ap (λ k. read36 k out) same)
  | inr more ↦
      let same : n / 36 * 36 + value36 (digit36 (n % 36)) ≡ n =
        omega (arith, value36-digit36 (n % 36) (omega arith)) in
      rw more (
        read36-loop f (n / 36) (digit36 (n % 36) ∷ out) (ground arith)
        ∙ ap (λ k. read36 k out) same)
]

pub read36-base36 : (n : ℕ) → read36 0 (base36 n) ≡ n
unfolding base36 read36
read36-base36 n = read36-loop (suc n) n [] (omega arith)
