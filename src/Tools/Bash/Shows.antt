-- ===== src/Tools/Bash/Shows.antt =====
-- What a run of the bash tool shows of its output.
use genkit_cowork.Base.{true, false, none, [], ◌++◌, ◌≡◌}
use genkit_cowork.Base.Int.{ℤ}
use genkit_cowork.Base.Bytes.{Bytes}
use genkit_cowork.Base.Result.{Result, ok}
use genkit_cowork.Tools.Truncate.{TruncationResult}
use genkit_cowork.Tools.Truncate.Tail.{TailOf}
use genkit_cowork.Tools.Bash.{BashToolOutput, exit_note}

-- what the tool shows of an output, `tail` being the end of it that is kept
pub record Shows (save : Bytes → Result Bytes Bytes) (output : Bytes) (code : ℤ)
    (r : BashToolOutput) : Type 0 where
  pub tail : TruncationResult
  pub is_tail : TailOf output none tail
  pub note : Bytes
  pub shown : r.content ≡ tail.content ++ (note ++ exit_note code)
  pub code_kept : r.exit_code ≡ code
  pub whole :
      tail.truncated ≡ false → (r.content ≡ output ++ exit_note code) × (r.full_output_path ≡ [])
  pub saved :
      (path : Bytes) → tail.truncated ≡ true → save output ≡ ok path → r.full_output_path ≡ path
