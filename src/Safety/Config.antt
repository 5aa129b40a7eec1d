-- ===== src/Safety/Config.antt =====
-- internal/safety/safety.go: `Config`, `Default` and `Validate`. A sample rate is a 64-bit float, and
-- the tests that Go's comparisons make of it are an argument.
use dark_canary.Prelude.{
  ℕ, Bool, true, not, ◌||◌, Option, none, some, List, [], Bytes, codes, nat_eq, ◌==◌, if◌then◌else◌,
}
use dark_canary.Command.Failure.{Failure, message, write_mirroring}

-- What the program does with sample rates.
pub record Rates : Type 1 where
  pub Rate : Type 0
  -- `r < 0`, `r > 1` and `r < 1`
  pub below_zero : Rate → Bool
  pub above_one : Rate → Bool
  pub below_one : Rate → Bool
  -- `draw >= r`
  pub at_least : Rate → Rate → Bool
  -- `0.01`
  pub one_percent : Rate

module _ (rates : Rates) where
  pub record Config : Type 0 where
    pub mirror_reads_only : Bool
    pub sample_rate : rates.Rate
    pub scrub_fields : List Bytes
    pub kill_file : Bytes
    pub max_body_bytes : ℕ

  -- `Default`
  abbrev pub default_config : Config
  default_config = record {
    mirror_reads_only = true;
    sample_rate = rates.one_percent;
    scrub_fields = [];
    kill_file = codes "/etc/dark-canary/kill";
    max_body_bytes = 1_048_576;
  }

  -- `Validate`; a size that is not positive is 0.
  unfoldable pub validate : Config → Option Failure
  validate c =
      if rates.below_zero c.sample_rate || rates.above_one c.sample_rate
      then some message
      else if c.max_body_bytes == 0
      then some message
      else if not c.mirror_reads_only
      then some write_mirroring
      else none
