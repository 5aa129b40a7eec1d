-- ===== src/Collector/Expiry.antt =====
-- internal/collector/collector.go: what `expire` computes.
use mathlib.Core.Path.{fun_ext}
use dark_canary.Prelude.{
  ℕ, ◌+◌, ◌-◌, ◌≤◌, ◌≡◌, refl, true, false, List, [], ◌∷◌, arith, Bytes, bytes_eq, nat_eq,
  if◌then◌else◌, length, keep, is_some, Distinct, lookup, keys, contains-keys, lookup_head,
  delete_head, All, Subseq, Subseq-refl, skip, keep-Subseq, Subseq-Distinct,
}
use dark_canary.Collector.Types.{Time, Options, Held, Buffer}
use dark_canary.Collector.Buffer.{compact_order, is_live, expire_loop, expire}

-- The entries from the first live one on.
abbrev pub survivors : Time → Options → List (Bytes × Held) → List (Bytes × Held)
survivors now opts [] = []
survivors now opts ((id, p) ∷ m) = if is_live now opts p then (id, p) ∷ m else survivors now opts m

pub length-survivors-le :
    (now : Time) (opts : Options) (m : List (Bytes × Held))
    → length (survivors now opts m) ≤ length m
length-survivors-le now opts [] = omega arith
length-survivors-le now opts ((id, p) ∷ m) = ground (arith, length-survivors-le now opts m)

-- The number of entries in front of the first live one.
abbrev pub stale : Time → Options → List (Bytes × Held) → ℕ
stale now opts m = length m - length (survivors now opts m)

abbrev pub with_pending : Buffer → List (Bytes × Held) → ℕ → Buffer
with_pending b m n = record b {
  pending = m;
  stats = record (b.stats) { expired = b.stats.expired + n };
}

expire_loop_lem :
    (now : Time) (m : List (Bytes × Held)) (b : Buffer) (n : ℕ)
    → b.pending ≡ m
    → Distinct (keys m)
    → expire_loop now (keys m) b n
      ≡ (with_pending b (survivors now b.opts m) (stale now b.opts m), n + stale now b.opts m)
unfolding expire_loop
expire_loop_lem now [] b n e d = ground arith
expire_loop_lem now ((id, p) ∷ m) b n e d = ground (
  arith,
  lookup_head {V = Held} id p m,
  delete_head {V = Held} id p m d.0,
  length-survivors-le now b.opts m,
  expire_loop_lem now m (with_pending b m 1) (n + 1) refl d.1,
)

pub survivors_whole :
    (now : Time) (opts : Options) (m : List (Bytes × Held))
    → stale now opts m ≡ 0
    → survivors now opts m ≡ m
survivors_whole now opts [] h = refl
survivors_whole now opts ((id, p) ∷ m) h = ground (arith, length-survivors-le now opts m)

survivors-Subseq :
    (now : Time) (opts : Options) (m : List (Bytes × Held))
    → Subseq (keys m) (keys (survivors now opts m))
survivors-Subseq now opts [] = Subseq-refl []
survivors-Subseq now opts ((id, p) ∷ m) =
    elim (is_live now opts p)
      as (λ b. Subseq (id ∷ keys m) (keys (if b then (id, p) ∷ m else survivors now opts m))) [
        | true ↦ Subseq-refl (id ∷ keys m)
        | false ↦ skip (survivors-Subseq now opts m)
      ]

pub All-survivors {ℓ} :
    (P : Bytes × Held → Type ℓ) (now : Time) (opts : Options) (m : List (Bytes × Held))
    → All P m
    → All P (survivors now opts m)
All-survivors P now opts [] h = tt
All-survivors P now opts ((id, p) ∷ m) h =
    elim (is_live now opts p) as (λ b. All P (if b then (id, p) ∷ m else survivors now opts m)) [
      | true ↦ h
      | false ↦ All-survivors P now opts m h.1
    ]

-- The order lists the pending ids, each of them once.
pub record IsAligned (b : Buffer) : Type 0 where
  pub aligned : b.order ≡ keys b.pending
  pub distinct : Distinct (keys b.pending)

pub compact_lem :
    (m m' : List (Bytes × Held))
    → Subseq (keys m) (keys m')
    → Distinct (keys m)
    → keep (λ id. is_some (lookup id m')) (keys m) ≡ keys m'
compact_lem m m' s d = rw (← fun_ext (λ id. contains-keys id m')) (keep-Subseq s d)

-- The buffer with other entries, and its order in step with them.
abbrev pub with_entries : Buffer → List (Bytes × Held) → Buffer
with_entries b m = record b { pending = m; order = keys m }

abbrev pub swept : Time → Buffer → Buffer
swept now b =
    with_pending (with_entries b (survivors now b.opts b.pending)) (survivors now b.opts b.pending)
      (stale now b.opts b.pending)

-- On a buffer whose order lists the ids that are held, once each, `expire` drops the entries in front of the first live one, and counts them.
pub expire_lem :
    (now : Time) (b : Buffer)
    → IsAligned b
    → expire now b ≡ (swept now b, stale now b.opts b.pending)
unfolding expire compact_order
expire_lem now b a = ground (
  arith,
  expire_loop_lem now b.pending b 0 refl a.distinct,
  survivors_whole now b.opts b.pending,
  compact_lem b.pending (survivors now b.opts b.pending) (survivors-Subseq now b.opts b.pending)
      a.distinct,
)

pub swept-IsAligned : (now : Time) (b : Buffer) → IsAligned b → IsAligned (swept now b)
swept-IsAligned now b a = record {
  aligned = refl;
  distinct = Subseq-Distinct (survivors-Subseq now b.opts b.pending) a.distinct;
}
