-- ===== src/Command/Flags.antt =====
-- cmd/dark-canary/config.go and main.go: `options`, `parseFlags` with no flag given, `splitList`,
-- `isLoopback`, `safetyConfig` and `rules`.
use dark_canary.Prelude.{
  ℕ, Bool, true, false, not, ◌&&◌, Option, none, some, List, [], ◌∷◌, Bytes, codes, bytes_eq,
  nat_eq, ◌==◌, if◌then◌else◌, trim_space,
}
use dark_canary.Noise.Rules.{Ruleset, default_rules, merge}
use dark_canary.Noise.Suppress.{LoadError, unreadable, loaded, failed, load}
use dark_canary.Safety.Config.{Rates, Config, default_config, validate}
use dark_canary.Command.Failure.{
  Failure, message, not_exist, wrapped, usage_error, ruleset_error, some_in_chain,
  is_write_mirroring,
}

-- Durations are numbers of nanoseconds; a number that is not positive is 0.
pub record Flags (rates : Rates) : Type 0 where
  pub listen : Bytes
  pub token : Bytes
  pub rules_path : Bytes
  pub timeout : ℕ
  pub max_pending : ℕ
  pub kill_file : Bytes
  pub max_body : ℕ
  pub writes : Bool
  pub scrub : Bytes
  pub interval : ℕ
  pub primary : Bytes
  pub shadow : Bytes
  pub proxy_listen : Bytes
  pub sample : rates.Rate
  pub shadow_timeout : ℕ
  pub inflight : ℕ

-- `parseFlags` on an empty command line.
abbrev pub default_flags : (rates : Rates) → Flags rates
default_flags rates = record {
  listen = codes "127.0.0.1:8099";
  token = [];
  rules_path = [];
  timeout = 30_000_000_000;
  max_pending = 10_000;
  kill_file = (default_config rates).kill_file;
  max_body = (default_config rates).max_body_bytes;
  writes = false;
  scrub = [];
  interval = 0;
  primary = [];
  shadow = [];
  proxy_listen = codes "127.0.0.1:8080";
  sample = (default_config rates).sample_rate;
  shadow_timeout = 10_000_000_000;
  inflight = 64;
}

-- `strings.Split(s, ",")`
abbrev put_first : ℕ → List Bytes → List Bytes
put_first c [] = (c ∷ []) ∷ []
put_first c (w ∷ ws) = (c ∷ w) ∷ ws

unfoldable pub split_commas : Bytes → List Bytes
split_commas [] = [] ∷ []
split_commas (c ∷ s) = if c == b',' then [] ∷ split_commas s else put_first c (split_commas s)

-- The loop of `splitList`: the parts that are not blank, trimmed.
unfoldable pub keep_parts : List Bytes → List Bytes
keep_parts [] = []
keep_parts (part ∷ parts) =
    let rest = keep_parts parts in
    if not (trim_space part == []) then trim_space part ∷ rest else rest

unfoldable pub split_list : Bytes → List Bytes
unfolding split_commas keep_parts
split_list s = keep_parts (split_commas s)

-- What Go's network library says of an address: its host, if it has a port too, and whether a host
-- is an IP address of the loopback interface.
pub record Network : Type 0 where
  pub host_of : Bytes → Option Bytes
  pub is_loopback_ip : Bytes → Bool

-- `isLoopback`
unfoldable pub is_loopback : Network → Bytes → Bool
is_loopback net addr = elim (net.host_of addr) [
  | none ↦ false
  | some host ↦ if host == codes "localhost" then true else net.is_loopback_ip host
]

module _ (rates : Rates) where
  -- The three results of `safetyConfig`.
  pub record Checked : Type 0 where
    pub cfg : Config rates
    pub warn : Option Failure
    pub err : Option Failure

  -- The configuration that the flags make.
  unfoldable pub folded : Flags rates → Config rates
  unfolding split_list
  folded o = record (default_config rates) {
    kill_file = o.kill_file;
    max_body_bytes = o.max_body;
    mirror_reads_only = not o.writes;
    scrub_fields = split_list o.scrub;
    sample_rate = o.sample;
  }

  -- The end of `safetyConfig`: not reachable without a token.
  unfoldable pub check_listen : Network → Flags rates → Config rates → Option Failure → Checked
  check_listen net o cfg warn =
      if not (is_loopback net o.listen) && o.token == []
      then record { cfg = cfg; warn = warn; err = some (usage_error message) }
      else record { cfg = cfg; warn = warn; err = none }

  -- `safetyConfig`
  unfoldable pub safety_config : Network → Flags rates → Checked
  unfolding check_listen folded
  safety_config net o =
      let cfg = folded o in
      elim (validate rates cfg) [
        | none ↦ check_listen net o cfg none
        | some e ↦
            if not (some_in_chain is_write_mirroring e)
            then record { cfg = cfg; warn = none; err = some (usage_error (wrapped e)) }
            else check_listen net o cfg (some e)
      ]

-- The error that `Load` returns. `missing` says whether there is no file at a path.
unfoldable pub load_failure : (Bytes → Bool) → Bytes → LoadError → Failure
load_failure missing path unreadable = if missing path then not_exist else message
load_failure missing path _ = message

-- The files, as `Load` meets them: reading one, whether it is missing, and the YAML library.
pub record Files : Type 0 where
  pub read_file : Bytes → Option Bytes
  pub missing : Bytes → Bool
  pub unmarshal : Bytes → Option Ruleset

-- `rules`, with the error beside the rules.
unfoldable pub rules : Files → Bytes → Ruleset × Option Failure
unfolding load_failure merge
rules files path =
    if path == [] then (default_rules, none) else elim (load files.read_file files.unmarshal path) [
      | failed e ↦ (default_rules, some (ruleset_error (load_failure files.missing path e)))
      | loaded rs ↦ (merge default_rules rs, none)
    ]
