-- ===== src/Tools/Bash.antt =====
-- The bash tool of genkit-cowork/tools/bash.go: the command that it runs and what it shows of the
-- output. The process, the file for the whole output and the hook are parameters.
pub mod Shows
use genkit_cowork.Base.{
  ℕ, zero, suc, ◌+◌, ◌-◌, ◌==◌, Bool, true, false, not, Option, none, some, List, [], ◌∷◌, ◌++◌,
  length, if◌then◌else◌,
}
use genkit_cowork.Base.Int.{ℤ, pos, negsuc, eqb_ℤ}
use genkit_cowork.Base.Bytes.{Bytes, codes, eqb}
use genkit_cowork.Base.Decimal.{itoa}
use genkit_cowork.Base.Result.{Result, err, ok}
use genkit_cowork.Tools.Lines.{newline}
use genkit_cowork.Tools.Truncate.{
  Limit, lines, bytes, TruncationResult, truncate_tail, default_max_bytes,
}
use genkit_cowork.Tools.Read.{format_size}

pub record BashSpawnContext : Type 0 where
  pub cmd : Bytes
  pub cwd : Bytes
  pub env : List Bytes

pub record BashToolInput : Type 0 where
  pub command : Bytes
  pub timeout : Option ℤ

pub record BashToolOutput : Type 0 where
  pub content : Bytes
  pub exit_code : ℤ
  pub full_output_path : Bytes

pub data BashError : Type 0 where
  no_directory command_failed : Bytes → BashError
  timed_out : ℤ → BashError
  canceled : BashError

-- how `cmdExec.Run()` ends: well, with an `*exec.ExitError`, or with another error and the error of
-- the command's context
pub data RunEnd : Type 0 where
  finished : RunEnd
  exited : ℤ → RunEnd
  past_deadline was_canceled : RunEnd
  run_failed : Bytes → RunEnd

-- `%d`
unfoldable pub show_int : ℤ → Bytes
show_int (pos n) = itoa n
show_int (negsuc n) = b'-' ∷ itoa (n + 1)

-- the seconds that the error names; a deadline is only there with a timeout
unfoldable pub seconds : Option ℤ → ℤ
seconds none = pos 0
seconds (some n) = n

-- `defaultBashOperator.Exec` behind the run: the output, the exit code and the error
unfoldable pub exec_result : Option ℤ → Bytes → RunEnd → Bytes × ℤ × Option BashError
exec_result timeout output finished = (output, pos 0, none)
exec_result timeout output (exited code) = (output, code, none)
exec_result timeout output past_deadline = (output, negsuc 0, some (timed_out (seconds timeout)))
exec_result timeout output was_canceled = (output, negsuc 0, some canceled)
exec_result timeout output (run_failed e) = ([], negsuc 0, some (command_failed e))

-- the loop of `lastLineOf`: the bytes behind the last newline, with what follows the part read
unfoldable pub last_line_from : Bytes → Bytes → Bytes
last_line_from line [] = line
last_line_from line (c ∷ cs) =
    let anew = last_line_from cs cs in
    let go_on = last_line_from line cs in if c == newline then anew else go_on

abbrev pub last_line_of : Bytes → Bytes
last_line_of s = last_line_from s s

unfoldable pub exit_note : ℤ → Bytes
exit_note code =
    if eqb_ℤ code (pos 0) then [] else codes "\n\nCommand exited with code " ++ show_int code

unfoldable pub by_limit : Limit → Bytes
by_limit lines = codes "."
by_limit _ = codes " (" ++ format_size default_max_bytes ++ codes " limit)."

-- what was cut off
unfoldable pub cut_note : Bytes → TruncationResult → Bytes
cut_note output t =
    if t.last_line_partial
    then codes "\n\n[Showing last "
      ++ format_size t.output_bytes
      ++ codes " of line "
      ++ itoa t.total_lines
      ++ codes " (line is "
      ++ format_size (length (last_line_of output))
      ++ codes ")."
    else codes "\n\n[Showing lines "
      ++ itoa (t.total_lines + 1 - t.output_lines)
      ++ codes "-"
      ++ itoa t.total_lines
      ++ codes " of "
      ++ itoa t.total_lines
      ++ by_limit t.truncated_by

unfoldable pub full_note : Bytes → Bytes
full_note [] = codes "]"
full_note (c ∷ cs) = codes " Full output: " ++ (c ∷ cs) ++ codes "]"

unfoldable pub saved_path : Result Bytes Bytes → Bytes
saved_path (err e) = []
saved_path (ok path) = path

module _ (save_temp_output : Bytes → Result Bytes Bytes) where
  unfoldable pub cut_output : Bytes → ℤ → TruncationResult → Bytes → BashToolOutput
  cut_output output code t path = record {
    content = t.content ++ cut_note output t ++ full_note path ++ exit_note code;
    exit_code = code;
    full_output_path = path;
  }

  unfoldable pub process_bash_output : Bytes → ℤ → BashToolOutput
  process_bash_output [] code = record {
    content = codes "(no output)" ++ exit_note code;
    exit_code = code;
    full_output_path = [];
  }
  process_bash_output (c ∷ cs) code =
      let output = c ∷ cs in
      let t = truncate_tail output none in
      if t.truncated
      then cut_output output code t (saved_path (save_temp_output output))
      else record { content = t.content ++ exit_note code; exit_code = code; full_output_path = [] }

  unfoldable pub with_prefix : Bytes → Bytes → Bytes
  with_prefix [] cmd = cmd
  with_prefix (c ∷ cs) cmd = (c ∷ cs) ++ newline ∷ cmd

  -- The hook gets the environment of `GetShellEnv`; what it sets an empty environment leaves as it was.
  unfoldable pub resolve_spawn_context :
      Option (BashSpawnContext → BashSpawnContext) → BashSpawnContext → BashSpawnContext
  resolve_spawn_context none base = base
  resolve_spawn_context (some hook) base = hook base

  -- without a hook, the command is run in the environment of the process
  unfoldable pub spawn_context :
      Option (BashSpawnContext → BashSpawnContext) → Bytes → Bytes → List Bytes → BashSpawnContext
  spawn_context none cmd cwd env = record { cmd = cmd; cwd = cwd; env = [] }
  spawn_context (some hook) cmd cwd env =
      resolve_spawn_context (some hook) (record { cmd = cmd; cwd = cwd; env = env })

  -- The handler of the tool. `exec` is the operator, by the context of the spawn (an empty
  -- environment stands for that of the process) and the timeout.
  unfoldable pub run_bash :
      (BashSpawnContext → Option ℤ → Bytes × ℤ × Option BashError)
      → Option (BashSpawnContext → BashSpawnContext)
      → Bytes
      → Bool
      → List Bytes
      → Bytes
      → BashToolInput
      → BashToolOutput × Option BashError
  run_bash exec hook command_prefix is_missing env cwd input =
      if is_missing
      then (
        record { content = []; exit_code = pos 0; full_output_path = [] },
        some (no_directory cwd),
      )
      else let (output, code, failed) =
          exec (spawn_context hook (with_prefix command_prefix input.command) cwd env)
            input.timeout in
        (process_bash_output output code, failed)
