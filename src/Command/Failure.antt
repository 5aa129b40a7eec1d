-- ===== src/Command/Failure.antt =====
-- cmd/dark-canary/exit.go: errors as chains, and the exit code of one. A message is not kept.
use dark_canary.Prelude.{ℕ, Bool, true, false, ◌||◌, Option, none, some, if◌then◌else◌}

-- Go's errors as the program makes and meets them, with what `Unwrap` gives inside.
pub data Failure : Type 0 where
  -- One with a text and nothing inside.
  message : Failure
  -- `http.ErrServerClosed`, `fs.ErrNotExist` and `safety.ErrWriteMirroringEnabled`.
  server_closed not_exist write_mirroring : Failure
  -- `fmt.Errorf` with `%w`.
  wrapped : Failure → Failure
  -- `*net.OpError`, `usageError` and `rulesetError`.
  op_error usage_error ruleset_error : Failure → Failure

-- The error itself or one inside it passes the test.
unfoldable pub some_in_chain : (Failure → Bool) → Failure → Bool
some_in_chain p message = p message
some_in_chain p server_closed = p server_closed
some_in_chain p not_exist = p not_exist
some_in_chain p write_mirroring = p write_mirroring
some_in_chain p (wrapped e) = p (wrapped e) || some_in_chain p e
some_in_chain p (op_error e) = p (op_error e) || some_in_chain p e
some_in_chain p (usage_error e) = p (usage_error e) || some_in_chain p e
some_in_chain p (ruleset_error e) = p (ruleset_error e) || some_in_chain p e

abbrev pub is_server_closed : Failure → Bool
is_server_closed server_closed = true
is_server_closed _ = false

abbrev pub is_not_exist : Failure → Bool
is_not_exist not_exist = true
is_not_exist _ = false

abbrev pub is_write_mirroring : Failure → Bool
is_write_mirroring write_mirroring = true
is_write_mirroring _ = false

abbrev pub is_usage_error : Failure → Bool
is_usage_error (usage_error _) = true
is_usage_error _ = false

abbrev pub is_ruleset_error : Failure → Bool
is_ruleset_error (ruleset_error _) = true
is_ruleset_error _ = false

abbrev pub is_op_error : Failure → Bool
is_op_error (op_error _) = true
is_op_error _ = false

abbrev pub exit_ok : ℕ
exit_ok = 0

abbrev pub exit_usage : ℕ
exit_usage = 64

abbrev pub exit_data_err : ℕ
exit_data_err = 65

abbrev pub exit_no_input : ℕ
exit_no_input = 66

abbrev pub exit_software : ℕ
exit_software = 70

abbrev pub exit_os_err : ℕ
exit_os_err = 71

-- `exitCode`; `none` is a nil error.
unfoldable pub exit_code : Option Failure → ℕ
unfolding some_in_chain
exit_code none = exit_ok
exit_code (some e) =
    if some_in_chain is_server_closed e
    then exit_ok
    else if some_in_chain is_usage_error e
    then exit_usage
    else if some_in_chain is_ruleset_error e
    then (if some_in_chain is_not_exist e then exit_no_input else exit_data_err)
    else if some_in_chain is_op_error e
    then exit_os_err
    else exit_software
