-- ===== src/Command/Startup.antt =====
-- cmd/dark-canary/main.go: the part of `run` before it listens, and what it has made sure of then.
use dark_canary.Prelude.{
  ◌<◌, ◌≡◌, ◌≢◌, refl, sym, ◌∙◌, ◌⊎◌, inl, inr, true, false, not, ◌&&◌, Option, none, some, [],
  arith, Bytes, codes, bytes_eq, bytes_beq_iff, nat_eq, ◌==◌, All, All-append, ◌++◌, Bool-cases,
}
use mathlib.Core.Path.{subst}
use dark_canary.Noise.Rules.{Ruleset, default_rules, merge}
use dark_canary.Noise.Suppress.{load}
use dark_canary.Noise.Validity.{IsUsable, load-All, default_rules-All, Loaded-cases}
use dark_canary.Safety.Config.{Rates, Config, validate}
use dark_canary.Command.Failure.{Failure, message, write_mirroring, some_in_chain}
use dark_canary.Command.Flags.{
  Flags, Network, is_loopback, Checked, folded, check_listen, safety_config, Files, rules,
}
use dark_canary.Command.Upstreams.{
  Url, ParsedUrl, parsed, parse_upstream, Upstreams, collector_mode, proxy_mode, bad_upstreams,
  upstreams,
}

-- What the program relies on from outside.
pub record World : Type 0 where
  pub net : Network
  pub files : Files
  pub parse_url : Bytes → ParsedUrl

module _ (rates : Rates) where
  -- `run` returns an error, or goes on to listen.
  pub data Started : Type 0 where
    refused : Failure → Started
    serving : Config rates → Option Failure → Ruleset → Upstreams → Started

  unfoldable pub with_upstreams : Checked rates → Ruleset → Upstreams → Started
  with_upstreams c rs (bad_upstreams e) = refused e
  with_upstreams c rs collector_mode = serving c.cfg c.warn rs collector_mode
  with_upstreams c rs (proxy_mode p s) = serving c.cfg c.warn rs (proxy_mode p s)

  -- `run`, up to its first server.
  unfoldable pub start : World → Flags rates → Started
  unfolding with_upstreams
  start world o =
      let c = safety_config rates world.net o in
      let (rs, failure) = rules world.files o.rules_path in
      elim (c.err) [
        | some e ↦ refused e
        | none ↦ elim failure [
          | some e ↦ refused e
          | none ↦ with_upstreams c rs (upstreams world.parse_url o.primary o.shadow)
        ]
      ]

  -- A configuration that passed: the rate is a fraction, a body has a bound, and writes are not
  -- mirrored without the warning.
  pub record IsGuarded (cfg : Config rates) (warn : Option Failure) : Type 0 where
    pub not_negative : rates.below_zero cfg.sample_rate ≡ false
    pub not_above_one : rates.above_one cfg.sample_rate ≡ false
    pub bounded : 0 < cfg.max_body_bytes
    pub reads_or_warned : (cfg.mirror_reads_only ≡ true) ⊎ (warn ≡ some write_mirroring)

  -- An upstream that can be reached over HTTP.
  abbrev pub IsRoutable : Url → Type 0
  IsRoutable u = ((u.scheme ≡ codes "http") ⊎ (u.scheme ≡ codes "https")) × (u.host ≢ [])

  -- Both upstreams or neither.
  abbrev pub BothOrNeither : Flags rates → Upstreams → Type 0
  BothOrNeither o collector_mode = (o.primary ≡ []) × (o.shadow ≡ [])
  BothOrNeither o (proxy_mode p s) =
      (o.primary ≢ []) × (o.shadow ≢ []) × IsRoutable p × IsRoutable s
  BothOrNeither o (bad_upstreams e) = ⊥

  -- The program serves only so.
  pub record IsSafeStart (world : World) (o : Flags rates) (cfg : Config rates)
      (warn : Option Failure) (rs : Ruleset) (ups : Upstreams) : Type 0 where
    pub folded_in : cfg ≡ folded rates o
    pub guarded : IsGuarded cfg warn
    pub closed : (is_loopback world.net o.listen ≡ true) ⊎ (o.token ≢ [])
    pub usable : All IsUsable rs
    pub both : BothOrNeither o ups

  validate_cases :
      (c : Config rates)
      → (validate rates c ≡ some message)
        ⊎ ((validate rates c ≡ none) × IsGuarded c none)
        ⊎ ((validate rates c ≡ some write_mirroring) × IsGuarded c (some write_mirroring))
  unfolding validate
  validate_cases c = ground arith

  -- What `safetyConfig` has made sure of when it returns no error.
  abbrev Passed : Network → Flags rates → Config rates → Checked rates → Type 0
  Passed net o cfg c =
      (c.cfg ≡ cfg) × IsGuarded c.cfg c.warn × ((is_loopback net o.listen ≡ true) ⊎ (o.token ≢ []))

  check_listen-Passed :
      (net : Network) (o : Flags rates) (cfg : Config rates) (warn : Option Failure)
      → IsGuarded cfg warn
      → (check_listen rates net o cfg warn).err ≡ none
      → Passed net o cfg (check_listen rates net o cfg warn)
  unfolding check_listen
  check_listen-Passed net o cfg warn g h =
      elim (Bool-cases (not (is_loopback net o.listen) && o.token == [])) [
        | inl open_ ↦ absurd (ground arith)
        | inr closed ↦ rw closed (refl, g, ground (arith, bytes_beq_iff o.token []))
      ]

  safety_config-Passed :
      (net : Network) (o : Flags rates)
      → (safety_config rates net o).err ≡ none
      → Passed net o (folded rates o) (safety_config rates net o)
  unfolding safety_config some_in_chain
  safety_config-Passed net o h = elim (validate_cases (folded rates o)) [
    | inl bad ↦ absurd (ground arith)
    | inr (inl (e, g)) ↦
        rw (e, safety_config)
          (check_listen-Passed net o (folded rates o) none g (rw (e, safety_config) at h))
    | inr (inr (e, g)) ↦
        rw (e, safety_config)
          (check_listen-Passed net o (folded rates o) (some write_mirroring) g
            (rw (e, safety_config) at h))
  ]

  rules-All :
      (files : Files) (path : Bytes) (rs : Ruleset)
      → rules files path ≡ (rs, none)
      → All IsUsable rs
  unfolding rules merge
  rules-All files path rs h = elim (Bool-cases (path == [])) [
    | inl none_given ↦
        subst (All IsUsable) {x = default_rules} {y = rs} (ground arith) default_rules-All
    | inr given ↦ elim (Loaded-cases (load files.read_file files.unmarshal path)) [
      | inr (e, bad) ↦ absurd (ground arith)
      | inl (own, good) ↦ subst (All IsUsable) {x = default_rules ++ own} {y = rs} (ground arith) (
          All-append IsUsable default_rules own default_rules-All
            (load-All files.read_file files.unmarshal path own good))
    ]
  ]

  parse_upstream-IsRoutable :
      (parse_url : Bytes → ParsedUrl) (raw : Bytes) (u : Url)
      → parse_upstream parse_url raw ≡ parsed u
      → IsRoutable u
  unfolding parse_upstream
  parse_upstream-IsRoutable parse_url raw u h = ground (
    arith,
    bytes_beq_iff u.scheme (codes "http"),
    bytes_beq_iff u.scheme (codes "https"),
    bytes_beq_iff u.host [],
  )

  upstreams-BothOrNeither :
      (parse_url : Bytes → ParsedUrl) (o : Flags rates) (ups : Upstreams)
      → upstreams parse_url o.primary o.shadow ≡ ups
      → ((e : Failure) → ups ≢ bad_upstreams e)
      → BothOrNeither o ups
  unfolding upstreams
  upstreams-BothOrNeither parse_url o collector_mode h good =
      ground (arith, bytes_beq_iff o.primary [], bytes_beq_iff o.shadow [])
  upstreams-BothOrNeither parse_url o (bad_upstreams e) h good = good e refl
  upstreams-BothOrNeither parse_url o (proxy_mode p s) h good = ground (
    arith,
    bytes_beq_iff o.primary [],
    bytes_beq_iff o.shadow [],
    parse_upstream-IsRoutable parse_url o.primary p,
    parse_upstream-IsRoutable parse_url o.shadow s,
  )

  start_inv :
      (world : World) (o : Flags rates) (cfg : Config rates) (warn : Option Failure) (rs : Ruleset)
      (ups : Upstreams)
      → start world o ≡ serving cfg warn rs ups
      → ((safety_config rates world.net o).err ≡ none)
        × (rules world.files o.rules_path ≡ (rs, none))
        × (upstreams world.parse_url o.primary o.shadow ≡ ups)
        × ((safety_config rates world.net o).cfg ≡ cfg)
        × ((safety_config rates world.net o).warn ≡ warn)
        × ((e : Failure) → ups ≢ bad_upstreams e)
  unfolding start with_upstreams
  start_inv world o cfg warn rs ups h = ground arith

  -- The program goes on to listen only with a sample rate that is neither negative nor above one, a
  -- bound on bodies, writes mirrored only under the warning, a loopback address or a token, usable
  -- rules, and two upstreams that can be reached over HTTP or none.
  pub start-IsSafeStart :
      (world : World) (o : Flags rates) (cfg : Config rates) (warn : Option Failure) (rs : Ruleset)
      (ups : Upstreams)
      → start world o ≡ serving cfg warn rs ups
      → IsSafeStart world o cfg warn rs ups
  start-IsSafeStart world o cfg warn rs ups h =
      let (none_wrong, good_rules, chosen, same_cfg, same_warn, good) =
        start_inv world o cfg warn rs ups h in
      let (whole, guards, closed) = safety_config-Passed world.net o none_wrong in
      record {
        folded_in = sym same_cfg ∙ whole;
        guarded =
            subst (λ w. IsGuarded cfg w) same_warn
              (subst (λ c. IsGuarded c (safety_config rates world.net o).warn) same_cfg guards);
        closed = closed;
        usable = rules-All world.files o.rules_path rs good_rules;
        both = upstreams-BothOrNeither world.parse_url o ups chosen good;
      }
