-- ===== src/Examples/Command.antt =====
-- Command lines, with rates in percent.
use dark_canary.Prelude.{
  ℕ, ◌≡◌, refl, true, false, none, some, codes, ltb, leb, bytes_eq, bytes_beq, ◌==◌, arith,
}
use dark_canary.Noise.Rules.{default_rules}
use dark_canary.Safety.Config.{Rates, validate}
use dark_canary.Command.Failure.{message, usage_error, exit_code, some_in_chain}
use dark_canary.Command.Flags.{
  Flags, default_flags, folded, safety_config, check_listen, is_loopback, rules, split_list,
  split_commas, keep_parts,
}
use dark_canary.Command.Upstreams.{unparsed, collector_mode, upstreams}
use dark_canary.Command.Startup.{
  World, refused, serving, start, with_upstreams, IsSafeStart, start-IsSafeStart,
}
use dark_canary.Command.Refusals.{ParsesQuietly, RefusalCode, start-RefusalCode}

abbrev pub percent : Rates
percent = record {
  Rate = ℕ;
  below_zero = λ r. false;
  above_one = λ r. ltb 100 r;
  below_one = λ r. ltb r 100;
  at_least = λ draw r. leb r draw;
  one_percent = 1;
}

abbrev pub small_world : World
small_world = record {
  net = record { host_of = λ a. some a; is_loopback_ip = λ h. h == codes "127.0.0.1:8099" };
  files = record { read_file = λ p. none; missing = λ p. true; unmarshal = λ b. none };
  parse_url = λ raw. unparsed message;
}

abbrev pub tests_flags : Flags percent
tests_flags = record (default_flags percent) { scrub = codes "email, token" }

starts :
    start percent small_world tests_flags
    ≡ serving (folded percent tests_flags) none default_rules collector_mode
unfolding start with_upstreams safety_config check_listen is_loopback folded validate rules
    upstreams split_list split_commas keep_parts bytes_beq
starts = refl

start-IsSafeStart_example :
    IsSafeStart percent small_world tests_flags
      (folded percent tests_flags)
      none
      default_rules
      collector_mode
start-IsSafeStart_example =
    start-IsSafeStart percent small_world tests_flags (folded percent tests_flags) none
      default_rules collector_mode starts

-- Only one upstream is given.
abbrev half_flags : Flags percent
half_flags = record (default_flags percent) { primary = codes "http://a" }

refuses : start percent small_world half_flags ≡ refused (usage_error message)
unfolding start with_upstreams safety_config check_listen is_loopback folded validate rules
    upstreams split_list split_commas keep_parts bytes_beq
refuses = refl

pub parses_quietly : ParsesQuietly small_world.parse_url
unfolding some_in_chain
parses_quietly raw e h = ground arith

start-RefusalCode_example :
    RefusalCode percent small_world half_flags
      (usage_error message)
      (exit_code (some (usage_error message)))
start-RefusalCode_example =
    start-RefusalCode percent small_world half_flags (usage_error message) parses_quietly refuses
