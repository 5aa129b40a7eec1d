-- ===== src/Command/Refusals.antt =====
-- cmd/dark-canary/exit.go, config.go and main.go: the exit codes of a refusal to start.
use dark_canary.Prelude.{
  ℕ, ◌≡◌, ◌≢◌, refl, ap, ◌⊎◌, inl, inr, Bool, true, false, Option, some, [], arith, Bytes, bytes_eq,
  ◌==◌, if◌then◌else◌, Bool-cases,
}
use mathlib.Core.Path.{subst}
use dark_canary.Noise.Rules.{Ruleset}
use dark_canary.Noise.Suppress.{LoadError, unreadable, failed, load}
use dark_canary.Noise.Validity.{Loaded-cases}
use dark_canary.Safety.Config.{Rates, validate}
use dark_canary.Command.Failure.{
  Failure, message, wrapped, usage_error, ruleset_error, some_in_chain, is_server_closed, exit_code,
  exit_usage, exit_data_err, exit_no_input,
}
use dark_canary.Command.Flags.{
  Flags, Network, check_listen, safety_config, Files, load_failure, rules,
}
use dark_canary.Command.Upstreams.{
  Url, ParsedUrl, parsed, unparsed, parse_upstream, bad_upstreams, upstreams,
}
use dark_canary.Command.Startup.{World, refused, with_upstreams, start}

-- No error of Go's URL parser says that a server was closed.
abbrev pub ParsesQuietly : (Bytes → ParsedUrl) → Type 0
ParsesQuietly parse_url =
    (raw : Bytes) (e : Failure)
    → parse_url raw ≡ unparsed e
    → some_in_chain is_server_closed e ≡ false

module _ (rates : Rates) where
  safety_config_err :
      (net : Network) (o : Flags rates) (e : Failure)
      → (safety_config rates net o).err ≡ some e
      → exit_code (some e) ≡ exit_usage
  unfolding safety_config check_listen validate some_in_chain exit_code
  safety_config_err net o e h = ground arith

-- An error, if there is one, and no word of a closed server in it.
abbrev IsQuiet : ParsedUrl → Type 0
IsQuiet (parsed u) = Unit
IsQuiet (unparsed e) = some_in_chain is_server_closed e ≡ false

ParsedUrl-cases :
    (r : ParsedUrl) → ((u : Url) × (r ≡ parsed u)) ⊎ ((e : Failure) × (r ≡ unparsed e))
ParsedUrl-cases (parsed u) = inl (u, refl)
ParsedUrl-cases (unparsed e) = inr (e, refl)

tested-IsQuiet :
    (u : Url) (a b : Bool)
    → IsQuiet (if a then unparsed message else if b then unparsed message else parsed u)
unfolding some_in_chain
tested-IsQuiet u true b = refl
tested-IsQuiet u false true = refl
tested-IsQuiet u false false = tt

parse_upstream-IsQuiet :
    (parse_url : Bytes → ParsedUrl) (raw : Bytes)
    → ParsesQuietly parse_url
    → IsQuiet (parse_upstream parse_url raw)
unfolding parse_upstream some_in_chain
parse_upstream-IsQuiet parse_url raw quiet = elim (ParsedUrl-cases (parse_url raw)) [
  | inl (u, e) ↦ rw (e, parse_upstream) (tested-IsQuiet u _ _)
  | inr (f, e) ↦ rw (e, parse_upstream) (quiet raw f e)
]

quiet_code :
    (e : Failure)
    → some_in_chain is_server_closed e ≡ false
    → exit_code (some (usage_error (wrapped e))) ≡ exit_usage
unfolding exit_code some_in_chain
quiet_code e h = ground arith

message_code : exit_code (some (usage_error message)) ≡ exit_usage
unfolding exit_code some_in_chain
message_code = refl

upstreams_err :
    (parse_url : Bytes → ParsedUrl) (primary shadow : Bytes) (e : Failure)
    → ParsesQuietly parse_url
    → upstreams parse_url primary shadow ≡ bad_upstreams e
    → exit_code (some e) ≡ exit_usage
unfolding upstreams
upstreams_err parse_url primary shadow e quiet h =
    let first = parse_upstream-IsQuiet parse_url primary quiet in
    let second = parse_upstream-IsQuiet parse_url shadow quiet in
    elim (ParsedUrl-cases (parse_upstream parse_url primary)) [
      | inr (f, wrong) ↦ ground (arith, quiet_code f (subst IsQuiet wrong first), message_code)
      | inl (u, right) ↦ elim (ParsedUrl-cases (parse_upstream parse_url shadow)) [
        | inr (f, wrong) ↦ ground (arith, quiet_code f (subst IsQuiet wrong second), message_code)
        | inl (w, fine) ↦ ground (arith, message_code)
      ]
    ]

-- What `rules` returns when `Load` fails, and its exit code.
abbrev RulesetCode : Files → Bytes → LoadError → ℕ → Type 0
RulesetCode files path le code =
    ((code ≡ exit_no_input) × (le ≡ unreadable) × (files.missing path ≡ true))
    ⊎ ((code ≡ exit_data_err) × ((le ≢ unreadable) ⊎ (files.missing path ≡ false)))

load_failure_code :
    (files : Files) (path : Bytes) (le : LoadError)
    → RulesetCode files path le
        (exit_code (some (ruleset_error (load_failure files.missing path le))))
unfolding load_failure exit_code some_in_chain
load_failure_code files path le = ground arith

rules_err :
    (files : Files) (path : Bytes) (rs : Ruleset) (e : Failure)
    → rules files path ≡ (rs, some e)
    → (le : LoadError) × (load files.read_file files.unmarshal path ≡ failed le)
      × RulesetCode files path le (exit_code (some e))
unfolding rules
rules_err files path rs e h = elim (Bool-cases (path == [])) [
  | inl none_given ↦ absurd (ground arith)
  | inr given ↦ elim (Loaded-cases (load files.read_file files.unmarshal path)) [
    | inl (own, good) ↦ absurd (ground arith)
    | inr (le, bad) ↦
        let made : e ≡ ruleset_error (load_failure files.missing path le) = ground arith in
        (le, bad, rw made (load_failure_code files path le))
  ]
]

module _ (rates : Rates) where
  -- Which flag is at fault, and the exit code.
  abbrev pub RefusalCode : World → Flags rates → Failure → ℕ → Type 0
  RefusalCode world o e code =
      ((code ≡ exit_usage)
        × (((safety_config rates world.net o).err ≡ some e)
            ⊎ (upstreams world.parse_url o.primary o.shadow ≡ bad_upstreams e)))
      ⊎ ((le : LoadError) × (load world.files.read_file world.files.unmarshal o.rules_path
            ≡ failed le)
          × RulesetCode world.files o.rules_path le code)

  refused_inv :
      (world : World) (o : Flags rates) (e : Failure)
      → start rates world o ≡ refused e
      → ((safety_config rates world.net o).err ≡ some e)
        ⊎ ((rules world.files o.rules_path).1 ≡ some e)
        ⊎ (upstreams world.parse_url o.primary o.shadow ≡ bad_upstreams e)
  unfolding start with_upstreams
  refused_inv world o e h = ground arith

  -- Where no error of the URL parser says that a server was closed: a refusal to start exits
  -- with the usage code for the guard rails and the upstreams, with the code of a missing
  -- input where the rules' file is not there, and with that of bad data where `Load` fails for
  -- another reason.
  pub start-RefusalCode :
      (world : World) (o : Flags rates) (e : Failure)
      → ParsesQuietly world.parse_url
      → start rates world o ≡ refused e
      → RefusalCode world o e (exit_code (some e))
  start-RefusalCode world o e quiet h = elim (refused_inv world o e h) [
    | inl flag ↦ inl (safety_config_err rates world.net o e flag, inl flag)
    | inr (inl file) ↦
        let rs = (rules world.files o.rules_path).0 in
        inr (rules_err world.files o.rules_path rs e (ap (λ (f : Option Failure). (rs, f)) file))
    | inr (inr url) ↦ inl (upstreams_err world.parse_url o.primary o.shadow e quiet url, inr url)
  ]
