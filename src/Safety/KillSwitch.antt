-- ===== src/Safety/KillSwitch.antt =====
-- internal/safety/safety.go: `FileKillSwitch` and `Engaged`. Whether the file is there is an argument
-- of each call.
use dark_canary.Prelude.{
  ℕ, ◌+◌, ◌≤◌, ◌≡◌, ◌≢◌, refl, ◌⊎◌, inl, inr, Bool, false, not, ◌&&◌, List, [], ◌∷◌, arith, Bytes,
  bytes_eq, bytes_beq_iff, nat_eq, ◌∙◌, ◌==◌, if◌then◌else◌, ltb, Bool-cases,
}
use dark_canary.Collector.Types.{Time}

pub record KillSwitch : Type 0 where
  pub path : Bytes
  pub ttl : ℕ
  pub checked : Time
  pub engaged : Bool

abbrev pub default_kill_ttl : ℕ
default_kill_ttl = 1_000_000_000

-- A time to live of 0 is the default.
abbrev pub lifetime : KillSwitch → ℕ
lifetime k = if k.ttl == 0 then default_kill_ttl else k.ttl

-- `t.Sub(k.checked) < ttl`, with the last check on the other side.
abbrev pub is_cached : Time → KillSwitch → Bool
is_cached t k = not (k.checked == 0) && ltb t (k.checked + lifetime k)

-- `Engaged` at a time, where the file is there or not.
unfoldable pub engaged_at : Time → Bool → KillSwitch → KillSwitch × Bool
engaged_at t exists k =
    if k.path == []
    then (k, false)
    else if is_cached t k
    then (k, k.engaged)
    else (record k { engaged = exists; checked = t }, exists)

-- A switch that has not been asked yet.
abbrev pub fresh : Bytes → ℕ → KillSwitch
fresh path ttl = record { path = path; ttl = ttl; checked = 0; engaged = false }

-- Calls at some times, in any order, under a file that comes and goes.
unfoldable pub asked : (Time → Bool) → List Time → KillSwitch → KillSwitch
asked file [] k = k
asked file (t ∷ ts) k = asked file ts (engaged_at t (file t) k).0

-- What is remembered is what the file was at the time of the last check.
abbrev pub IsRemembered : (Time → Bool) → KillSwitch → Type 0
IsRemembered file k = (k.checked ≡ 0) ⊎ (k.engaged ≡ file k.checked)

pub engaged_at-IsRemembered :
    (file : Time → Bool) (t : Time) (k : KillSwitch)
    → IsRemembered file k
    → ((engaged_at t (file t) k).0.path ≡ k.path)
      × ((engaged_at t (file t) k).0.ttl ≡ k.ttl)
      × IsRemembered file (engaged_at t (file t) k).0
unfolding engaged_at
engaged_at-IsRemembered file t k h = elim (Bool-cases (k.path == [])) [
  | inl off ↦ rw off (refl, refl, h)
  | inr on ↦ rw on (elim (Bool-cases (is_cached t k)) [
    | inl cached ↦ rw cached (refl, refl, h)
    | inr stale ↦ rw stale (refl, refl, inr refl)
  ])
]

asked-IsRemembered :
    (file : Time → Bool) (ts : List Time) (k : KillSwitch)
    → IsRemembered file k
    → ((asked file ts k).path ≡ k.path)
      × ((asked file ts k).ttl ≡ k.ttl)
      × IsRemembered file (asked file ts k)
unfolding asked
asked-IsRemembered file [] k h = (refl, refl, h)
asked-IsRemembered file (t ∷ ts) k h =
    let (path, ttl, kept) = engaged_at-IsRemembered file t k h in
    let (path', ttl', kept') = asked-IsRemembered file ts (engaged_at t (file t) k).0 kept in
    (path' ∙ path, ttl' ∙ ttl, kept')

-- A call on a switch that remembers the file, where the file has been the same for the time to live.
pub engaged_at-remembered :
    (file : Time → Bool) (since now : Time) (there : Bool) (k : KillSwitch)
    → k.path ≢ []
    → IsRemembered file k
    → ((u : Time) → since ≤ u → file u ≡ there)
    → since + lifetime k ≤ now
    → (engaged_at now (file now) k).1 ≡ there
unfolding engaged_at
engaged_at-remembered file since now there k on h settled late =
    elim (Bool-cases (is_cached now k)) [
      | inl cached ↦ rw cached (ground (arith, bytes_beq_iff k.path [], settled k.checked))
      | inr stale ↦ rw stale (ground (arith, bytes_beq_iff k.path [], settled now))
    ]

-- With a path, and whatever calls came before and in whatever order: once the file has been there,
-- or been gone, for the time to live, `Engaged` says so.
pub engaged_at-settles :
    (file : Time → Bool) (ts : List Time) (path : Bytes) (ttl : ℕ) (since now : Time) (there : Bool)
    → path ≢ []
    → ((u : Time) → since ≤ u → file u ≡ there)
    → since + lifetime (fresh path ttl) ≤ now
    → (engaged_at now (file now) (asked file ts (fresh path ttl))).1 ≡ there
engaged_at-settles file ts path ttl since now there on settled late =
    let (same, life, last) = asked-IsRemembered file ts (fresh path ttl) (inl refl) in
    engaged_at-remembered file since now there (asked file ts (fresh path ttl)) (rw same on) last
      settled (rw life late)
