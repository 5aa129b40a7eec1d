-- ===== src/Command/Finish.antt =====
-- cmd/dark-canary/main.go: the end of `run`, and the code that `main` exits with.
use dark_canary.Report.Aggregator.{Summary}
use dark_canary.Report.Text.{Formats, Tabs}
use dark_canary.Report.Writing.{text}
use dark_canary.Prelude.{
  ℕ, ◌≢◌, List, [], Bytes, ◌≡◌, ◌⊎◌, true, not, Option, none, some, arith, if◌then◌else◌,
}
use dark_canary.Command.Failure.{
  Failure, wrapped, some_in_chain, is_server_closed, exit_code, exit_ok,
}

-- The proxy's goroutine: what its listener returned, and what it leaves for `run`.
unfoldable pub left_behind : Failure → Option Failure
unfolding some_in_chain
left_behind err = if not (some_in_chain is_server_closed err) then some (wrapped err) else none

-- The exit code of `main`, for what `run` returns; `none` is nil.
unfoldable pub main_code : Option Failure → ℕ
unfolding some_in_chain exit_code
main_code none = exit_ok
main_code (some e) = if not (some_in_chain is_server_closed e) then exit_code (some e) else exit_ok

-- What `run` returns, once its listener has returned an error, and what it has written of the report
-- before that.
unfoldable pub finish_run :
    {Error : Type 0}
    → (List Bytes → Bytes → Option Error)
    → Formats
    → Tabs
    → Summary
    → Failure
    → Option Failure
    → Failure × List Bytes
unfolding some_in_chain text
finish_run accepts formats tabs sm err fatal =
    if not (some_in_chain is_server_closed err)
    then (err, [])
    else elim fatal [ some f ↦ (f, []) | none ↦ (err, (text accepts formats tabs sm).0.written) ]

-- What the proxy left, where there was one and it stopped.
abbrev pub left_by : Option Failure → Option Failure
left_by none = none
left_by (some err) = left_behind err

-- Both listeners were shut down in order.
abbrev pub StoppedCleanly : Failure → Option Failure → Type 0
StoppedCleanly err none = some_in_chain is_server_closed err ≡ true
StoppedCleanly err (some proxy_err) =
    (some_in_chain is_server_closed err ≡ true) × (some_in_chain is_server_closed proxy_err ≡ true)

-- What `run` returns and has written: the program stopped cleanly, its exit code is that of success
-- and the report is written; or it did not, the code is another one and nothing is.
abbrev pub EndsSo : Failure × List Bytes → Type 0 → List Bytes → Type 0
EndsSo (e, written) Clean report =
    ((main_code (some e) ≡ exit_ok) × Clean × (written ≡ report))
    ⊎ ((main_code (some e) ≢ exit_ok) × ¬ Clean × (written ≡ []))

pub main_code_lem : (e : Failure) → main_code (some e) ≡ exit_code (some e)
unfolding main_code exit_code
main_code_lem e = ground arith

pub finish_run-EndsSo :
    {Error : Type 0} (accepts : List Bytes → Bytes → Option Error) (formats : Formats) (tabs : Tabs)
    (sm : Summary) (err : Failure) (proxy_err : Option Failure)
    → EndsSo
        (finish_run accepts formats tabs sm err (left_by proxy_err))
        (StoppedCleanly err proxy_err)
        (text accepts formats tabs sm).0.written
unfolding finish_run left_behind main_code exit_code some_in_chain
finish_run-EndsSo accepts formats tabs sm err none = ground arith
finish_run-EndsSo accepts formats tabs sm err (some proxy_err) = ground arith
