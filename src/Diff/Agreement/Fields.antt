-- ===== src/Diff/Agreement/Fields.antt =====
-- internal/diff/diff.go: the header fields of two responses that are compared, and when they agree.
use dark_canary.Prelude.{
  ◌≡◌, ◌≢◌, refl, sym, ◌∙◌, ◌↔◌, inl, inr, true, false, List, [], ◌∷◌, arith, Bytes, codes,
  bytes_eq, bytes_beq_iff, ◌==◌, contains, Bool-cases, equal_fold, to_lower, join,
}
use dark_canary.Collector.Types.{Headers}
use dark_canary.Diff.Headers.{is_transport, header_value}

-- What headers hold under a lowered name: the values of the first field whose name is that one, case
-- aside, with a comma and a space between them; nothing where there is no such field.
pub data Reads : Headers → Bytes → Bytes → Type 0 where
  missing : {n : Bytes} → Reads [] n []
  first :
      {h : Headers} {k n : Bytes} {v : List Bytes}
      → to_lower k ≡ n
      → Reads ((k, v) ∷ h) n (join v (codes ", "))
  later :
      {h : Headers} {k n w : Bytes} {v : List Bytes}
      → to_lower k ≢ n
      → Reads h n w
      → Reads ((k, v) ∷ h) n w

-- The same text is read of both sides.
pub data SameField (p s : Headers) (n : Bytes) : Type 0 where
  same_text : {v : Bytes} → Reads p n v → Reads s n v → SameField p s n

-- A name of none of the headers that belong to one connection.
abbrev pub IsEndToEnd : Bytes → Type 0
IsEndToEnd n =
    (n ≢ codes "connection")
    × (n ≢ codes "keep-alive")
    × (n ≢ codes "transfer-encoding")
    × (n ≢ codes "content-length")
    × (n ≢ codes "te")
    × (n ≢ codes "trailer")
    × (n ≢ codes "upgrade")
    × (n ≢ codes "proxy-authenticate")
    × (n ≢ codes "proxy-authorization")

-- Under every lowered name but those of one connection the two sides hold the same.
abbrev pub HeadersAgree : Headers → Headers → Type 0
HeadersAgree p s = (n : Bytes) → to_lower n ≡ n → IsEndToEnd n → SameField p s n

differs : (n m : Bytes) → (n == m) ≡ false ↔ (n ≢ m)
differs n m =
    (λ e same. ground (arith, bytes_beq_iff n m), λ other. ground (arith, bytes_beq_iff n m))

is_not : (m n : Bytes) → (m == n) ≡ false ↔ (n ≢ m)
is_not m n =
    (λ e same. ground (arith, bytes_beq_iff m n), λ other. ground (arith, bytes_beq_iff m n))

pub is_transport-IsEndToEnd : (n : Bytes) → (is_transport n ≡ false) ↔ IsEndToEnd n
unfolding is_transport contains
is_transport-IsEndToEnd n = ground (
  arith,
  is_not (codes "connection") n,
  is_not (codes "keep-alive") n,
  is_not (codes "transfer-encoding") n,
  is_not (codes "content-length") n,
  is_not (codes "te") n,
  is_not (codes "trailer") n,
  is_not (codes "upgrade") n,
  is_not (codes "proxy-authenticate") n,
  is_not (codes "proxy-authorization") n,
)

header_value-Reads : (h : Headers) (n : Bytes) → to_lower n ≡ n → Reads h n (header_value h n)
unfolding header_value equal_fold
header_value-Reads [] n l = missing
header_value-Reads ((k, v) ∷ h) n l = elim (Bool-cases (equal_fold k n)) [
  | inl same ↦ rw same (first ((bytes_beq_iff (to_lower k) (to_lower n)).0 same ∙ l))
  | inr other ↦ rw other (
      later (λ e. ground (arith, bytes_beq_iff (to_lower k) (to_lower n), e, l, other))
        (header_value-Reads h n l))
]

Reads-header_value :
    {h : Headers} {n v : Bytes} → to_lower n ≡ n → Reads h n v → header_value h n ≡ v
unfolding header_value equal_fold
Reads-header_value l missing = refl
Reads-header_value {n} l (first {h} {k} {n = _} {v} e) =
    let same : equal_fold k n ≡ true = (bytes_beq_iff (to_lower k) (to_lower n)).1 (e ∙ sym l) in
    rw same refl
Reads-header_value {n} l (later {h} {k} {n = _} {w} {v} e r) =
    let other : equal_fold k n ≡ false = (differs (to_lower k) (to_lower n)).1 (λ q. e (q ∙ l)) in
    rw other (Reads-header_value l r)

pub header_value-SameField :
    (p s : Headers) (n : Bytes)
    → to_lower n ≡ n
    → (header_value p n ≡ header_value s n) ↔ SameField p s n
header_value-SameField p s n l = (
  λ e. same_text (header_value-Reads p n l) (rw e (header_value-Reads s n l)),
  λ h. elim h [ same_text a b ↦ Reads-header_value l a ∙ sym (Reads-header_value l b) ],
)
