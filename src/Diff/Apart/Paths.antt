-- ===== src/Diff/Apart/Paths.antt =====
-- internal/diff/diff.go: paths that begin with a path, and the tokens that tell its children apart.
use dark_canary.Prelude.{
  ℕ, zero, suc, ◌+◌, ◌-◌, ◌*◌, ◌/◌, ◌%◌, ◌<◌, ◌≡◌, refl, sym, ap, ◌∙◌, inl, inr, false, [], ◌∷◌,
  ◌++◌, append_assoc, append-nil, arith, Bytes, codes, nat_eq, ltb, length, length-append, contains,
  Bool-cases,
}
use dark_canary.Diff.Text.{decimal_loop, decimal, escape_token}
use dark_canary.Diff.Escaping.{escape_token-reads_back, unescape}

-- What stands behind a whole token.
abbrev pub IsTail : Bytes → Type 0
IsTail [] = Unit
IsTail (c ∷ s) = c ≡ b'/'

-- The path itself or one below it.
abbrev pub Under : Bytes → Bytes → Type 0
Under p q = (s : Bytes) × (q ≡ p ++ s) × IsTail s

abbrev pub Below : Bytes → Bytes → Type 0
Below p q = (s : Bytes) × (q ≡ p ++ b'/' ∷ s)

abbrev pub child_path : Bytes → Bytes → Bytes
child_path p t = p ++ codes "/" ++ t

child_path_tail : (p t s : Bytes) → child_path p t ++ s ≡ p ++ b'/' ∷ (t ++ s)
child_path_tail p t s = append_assoc (p ++ codes "/") t s ∙ append_assoc p (codes "/") (t ++ s)

pub Under-child : (p t : Bytes) {q : Bytes} → Under (child_path p t) q → Below p q
Under-child p t (s, e, _) = (t ++ s, e ∙ child_path_tail p t s)

pub Under-self : (p : Bytes) {q : Bytes} → q ≡ p → Under p q
Under-self p e = ([], e ∙ sym (append-nil p), tt)

pub Below-Under : (p : Bytes) {q : Bytes} → Below p q → Under p q
Below-Under p (s, e) = (b'/' ∷ s, e, refl)

pub Below-not_self : (p : Bytes) {q : Bytes} → Below p q → q ≡ p → ⊥
Below-not_self p {q} (s, e) same =
    absurd (omega (arith, ap length e, ap length same, length-append p (b'/' ∷ s)))

pub cancel : (p : Bytes) {s t : Bytes} → p ++ s ≡ p ++ t → s ≡ t
cancel [] h = h
cancel (x ∷ p) h = cancel p (cc)

abbrev IsToken : Bytes → Type 0
IsToken t = contains b'/' t ≡ false

token_eq :
    (t u s s' : Bytes) → IsToken t → IsToken u → IsTail s → IsTail s' → t ++ s ≡ u ++ s' → t ≡ u
unfolding contains
token_eq [] [] s s' ht hu hs hs' e = refl
token_eq [] (y ∷ u) [] s' ht hu hs hs' e = absurd (cc)
token_eq [] (y ∷ u) (c ∷ s) s' ht hu hs hs' e = absurd (ground arith)
token_eq (x ∷ t) [] s [] ht hu hs hs' e = absurd (cc)
token_eq (x ∷ t) [] s (c ∷ s') ht hu hs hs' e = absurd (ground arith)
token_eq (x ∷ t) (y ∷ u) s s' ht hu hs hs' e =
    ground (arith, token_eq t u s s' (ground arith) (ground arith) hs hs')

-- Two children that share a path below them are one child.
pub Under-same_token :
    (p t u : Bytes) {q : Bytes}
    → contains b'/' t ≡ false
    → contains b'/' u ≡ false
    → Under (child_path p t) q
    → Under (child_path p u) q
    → t ≡ u
Under-same_token p t u ht hu (s, e, tail) (s', e', tail') =
    let both : b'/' ∷ (t ++ s) ≡ b'/' ∷ (u ++ s') =
      cancel p (sym (child_path_tail p t s) ∙ sym e ∙ e' ∙ child_path_tail p u s') in
    token_eq t u s s' ht hu tail tail' (cc)

pub escape_token-IsToken : (k : Bytes) → contains b'/' (escape_token k) ≡ false
escape_token-IsToken k = (escape_token-reads_back k).1

pub escape_token-injective : (k j : Bytes) → escape_token k ≡ escape_token j → k ≡ j
escape_token-injective k j h =
    sym (escape_token-reads_back k).0 ∙ ap unescape h ∙ (escape_token-reads_back j).0

-- The number that decimal digits stand for, behind what has been read.
unfoldable read_decimal : ℕ → Bytes → ℕ
read_decimal acc [] = acc
read_decimal acc (c ∷ s) = read_decimal (acc * 10 + (c - b'0')) s

read_decimal-loop :
    (f n : ℕ) (out : Bytes) → n < f → read_decimal 0 (decimal_loop f n out) ≡ read_decimal n out
unfolding decimal_loop read_decimal
read_decimal-loop zero n out h = absurd (omega arith)
read_decimal-loop (suc f) n out h = elim (Bool-cases (ltb n 10)) [
  | inl last ↦
      let same : 0 * 10 + (b'0' + n - b'0') ≡ n = omega arith in
      rw last (ap (λ k. read_decimal k out) same)
  | inr more ↦
      let same : n / 10 * 10 + (b'0' + n % 10 - b'0') ≡ n = omega arith in
      rw more (
        read_decimal-loop f (n / 10) ((b'0' + n % 10) ∷ out) (ground arith)
        ∙ ap (λ k. read_decimal k out) same)
]

read_decimal-decimal : (n : ℕ) → read_decimal 0 (decimal n) ≡ n
unfolding decimal read_decimal
read_decimal-decimal n = read_decimal-loop (suc n) n [] (omega arith)

pub decimal-injective : (m n : ℕ) → decimal m ≡ decimal n → m ≡ n
decimal-injective m n h =
    sym (read_decimal-decimal m) ∙ ap (read_decimal 0) h ∙ read_decimal-decimal n

loop-IsToken :
    (f n : ℕ) (out : Bytes)
    → contains b'/' out ≡ false
    → contains b'/' (decimal_loop f n out) ≡ false
unfolding decimal_loop contains
loop-IsToken zero n out h = h
loop-IsToken (suc f) n out h = elim (Bool-cases (ltb n 10)) [
  | inl last ↦ rw last (ground arith)
  | inr more ↦ rw more (loop-IsToken f (n / 10) ((b'0' + n % 10) ∷ out) (ground arith))
]

pub decimal-IsToken : (n : ℕ) → contains b'/' (decimal n) ≡ false
unfolding decimal contains
decimal-IsToken n = loop-IsToken (suc n) n [] refl
