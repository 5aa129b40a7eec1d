-- ===== src/Diff/Text.antt =====
-- internal/diff/diff.go: the texts that the engine writes: decimal numbers and escaped path tokens.
use dark_canary.Prelude.{
  ℕ, zero, suc, ◌+◌, ◌/◌, ◌%◌, [], ◌∷◌, ◌++◌, Bytes, codes, nat_eq, ◌==◌, if◌then◌else◌, ltb,
}

-- `strconv.Itoa` and `%d` on a number that is not negative, its last digits first found.
unfoldable pub decimal_loop : ℕ → ℕ → Bytes → Bytes
decimal_loop zero n out = out
decimal_loop (suc f) n out =
    let more = decimal_loop f (n / 10) ((b'0' + n % 10) ∷ out) in
    if ltb n 10 then (b'0' + n) ∷ out else more

unfoldable pub decimal : ℕ → Bytes
unfolding decimal_loop
decimal n = decimal_loop (suc n) n []

-- The replacer of `escapeToken`, byte by byte.
unfoldable pub escape_byte : ℕ → Bytes
escape_byte c = if c == b'~' then codes "~0" else if c == b'/' then codes "~1" else c ∷ []

unfoldable pub escape_token : Bytes → Bytes
unfolding escape_byte
escape_token [] = []
escape_token (c ∷ s) = escape_byte c ++ escape_token s
