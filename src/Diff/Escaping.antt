-- ===== src/Diff/Escaping.antt =====
-- internal/diff/diff.go: keys that are escaped into a path, and their reading.
use dark_canary.Prelude.{
  ℕ, ◌≡◌, refl, false, inl, inr, [], ◌∷◌, arith, Bytes, nat_eq, ◌==◌, if◌then◌else◌, contains,
  Bool-cases,
}
use dark_canary.Diff.Text.{escape_token}

-- The byte that stands behind a `~` in a token.
abbrev unescape_byte : ℕ → ℕ
unescape_byte c = if c == b'0' then b'~' else if c == b'1' then b'/' else c

-- RFC 6901's reading of a token.
unfoldable pub unescape : Bytes → Bytes
unescape [] = []
unescape (c ∷ []) = c ∷ []
unescape (c ∷ d ∷ s) =
    let escaped = unescape_byte d ∷ unescape s in
    let plain = c ∷ unescape (d ∷ s) in if c == b'~' then escaped else plain

unescape_plain : (c : ℕ) (s : Bytes) → (c == b'~') ≡ false → unescape (c ∷ s) ≡ c ∷ unescape s
unfolding unescape
unescape_plain c [] h = refl
unescape_plain c (d ∷ s) h = rw h refl

unescape-escape_token : (s : Bytes) → unescape (escape_token s) ≡ s
unfolding escape_token unescape
unescape-escape_token [] = refl
unescape-escape_token (c ∷ s) = elim (Bool-cases (c == b'~')) [
  | inl tilde ↦ ground (arith, unescape-escape_token s)
  | inr other ↦ elim (Bool-cases (c == b'/')) [
    | inl slash ↦ ground (arith, unescape-escape_token s)
    | inr plain ↦ ground (arith, unescape_plain c (escape_token s) other, unescape-escape_token s)
  ]
]

contains-escape_token : (s : Bytes) → contains b'/' (escape_token s) ≡ false
unfolding escape_token contains
contains-escape_token [] = refl
contains-escape_token (c ∷ s) = ground (arith, contains-escape_token s)

-- A key is read back from its token, so that two keys have two tokens, and no token has a slash.
pub escape_token-reads_back :
    (s : Bytes) → (unescape (escape_token s) ≡ s) × (contains b'/' (escape_token s) ≡ false)
escape_token-reads_back s = (unescape-escape_token s, contains-escape_token s)
