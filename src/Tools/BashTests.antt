-- ===== src/Tools/BashTests.antt =====
-- Runs of the bash and the write tool, and of the environment of a shell, at concrete inputs.
use genkit_cowork.Base.{false, none, some, List, [], ◌∷◌, ◌++◌, ◌≡◌, refl}
use genkit_cowork.Base.Int.{pos, negsuc}
use genkit_cowork.Base.Bytes.{Bytes, codes, eqb, has_prefix}
use genkit_cowork.Base.Decimal.{itoa, digits_before}
use genkit_cowork.Base.Dict.{lookup, insert, contains}
use genkit_cowork.Base.Result.{Result, err, ok}
use genkit_cowork.Os.Path.{
  segments_from, up, enter, enter_all, show_parts, show_path, clean, with_slashes, join,
}
use genkit_cowork.Memory.AtomicWrite.{dir_of, up_to_slash}
use genkit_cowork.Tools.Lines.{split_lines}
use genkit_cowork.Tools.Truncate.{truncate_tail, line_limit, byte_limit}
use genkit_cowork.Tools.ResolvePath.{resolve_to_cwd, expand_path}
use genkit_cowork.Tools.Bash.{
  process_bash_output, exit_note, show_int, last_line_from, run_bash, spawn_context, with_prefix,
  exec_result, seconds, exited, past_deadline, timed_out,
}
use genkit_cowork.Tools.Bash.Shows.{Shows}
use genkit_cowork.Tools.ShellEnv.{
  get_shell_env, env_slice, with_agent_dir, with_bin, or_unset, split_path_from, path_key, folded,
  fold_byte,
}
use genkit_cowork.Tools.Write.{WriteOperator, perform_write, write_content, written_message}

no_file : Bytes → Result Bytes Bytes
no_file output = err []

bash_run :
    run_bash no_file
      (λ spawn timeout. exec_result timeout (codes "out") (exited (pos 2)))
      none
      (codes "set -e")
      false
      []
      (codes "/w")
      (record { command = codes "ls"; timeout = none })
    ≡ (
      record {
        content = codes "out\n\nCommand exited with code 2";
        exit_code = pos 2;
        full_output_path = [];
      },
      none,
    )
unfolding run_bash spawn_context with_prefix exec_result process_bash_output truncate_tail
    line_limit byte_limit split_lines exit_note show_int itoa digits_before
bash_run = refl

timeout_run :
    exec_result (some (pos 3)) (codes "out") past_deadline
    ≡ (codes "out", negsuc 0, some (timed_out (pos 3)))
unfolding exec_result seconds
timeout_run = refl

last_line_run : last_line_from (codes "a\nbc") (codes "a\nbc") ≡ codes "bc"
unfolding last_line_from
last_line_run = refl

-- The entry that is added stands for two directories, and the old search path is lost.
shell_env_run :
    get_shell_env ((codes "PATH", codes "/bin") ∷ (codes "ENV_AGENT_DIR", codes "/a") ∷ [])
    ≡ codes "PATH=/a:bin" ∷ codes "ENV_AGENT_DIR=/a" ∷ []
unfolding get_shell_env env_slice with_agent_dir with_bin or_unset split_path_from path_key folded
    fold_byte lookup insert contains eqb
shell_env_run = refl

-- an operator whose state is the list of its calls
abbrev calls : WriteOperator (List Bytes)
calls = record {
  write_file = λ path content s. (ok tt, s ++ path ∷ []);
  mkdir_all = λ path s. (ok tt, s ++ path ∷ []);
}

write_run :
    perform_write calls false false none
      (codes "/w")
      (record { path = codes "d/f"; content = codes "abc" })
      []
    ≡ (ok (codes "Successfully wrote 3 bytes to /w/d/f"), codes "/w/d" ∷ codes "/w/d/f" ∷ [])
unfolding perform_write write_content written_message resolve_to_cwd expand_path has_prefix dir_of
    up_to_slash join with_slashes clean segments_from enter_all enter up show_path show_parts eqb
    itoa digits_before
write_run = refl
