-- ===== src/Tools/Write.antt =====
-- `performWrite` of genkit-cowork/tools/write.go, over any operator with a state of its own.
use genkit_cowork.Base.{Bool, Option, ◌++◌, length, if◌then◌else◌}
use genkit_cowork.Base.Bytes.{Bytes, codes}
use genkit_cowork.Base.Decimal.{itoa}
use genkit_cowork.Base.Result.{Result, err, ok}
use genkit_cowork.Memory.AtomicWrite.{dir_of}
use genkit_cowork.Tools.ResolvePath.{resolve_to_cwd}

pub record WriteOperator (S : Type 0) : Type 0 where
  pub write_file : Bytes → Bytes → S → Result Bytes (Unit {0}) × S
  pub mkdir_all : Bytes → S → Result Bytes (Unit {0}) × S

pub record WriteToolInput : Type 0 where
  pub path : Bytes
  pub content : Bytes

pub data WriteToolError : Type 0 where
  cancelled : WriteToolError
  mkdir_failed write_failed : Bytes → WriteToolError

module _ {S : Type 0} where
  unfoldable pub written_message :
      Bytes → Bytes → Result Bytes (Unit {0}) × S → Result WriteToolError Bytes × S
  written_message path content (err e, s) = (err (write_failed e), s)
  written_message path content (ok _, s) =
      (ok (codes "Successfully wrote " ++ itoa (length content) ++ codes " bytes to " ++ path), s)

  -- what follows the making of the directory
  unfoldable pub write_content :
      WriteOperator S
      → Bool
      → Bytes
      → Bytes
      → Result Bytes (Unit {0}) × S
      → Result WriteToolError Bytes × S
  write_content ops cancelled_later path content (err e, s) = (err (mkdir_failed e), s)
  write_content ops cancelled_later path content (ok _, s) =
      if cancelled_later
      then (err cancelled, s)
      else written_message path content (ops.write_file path content s)

  -- The flags say whether the context is cancelled before the directory is made, and behind that.
  unfoldable pub perform_write :
      WriteOperator S
      → Bool
      → Bool
      → Option Bytes
      → Bytes
      → WriteToolInput
      → S
      → Result WriteToolError Bytes × S
  perform_write ops cancelled_first cancelled_later home cwd input s =
      let path = resolve_to_cwd home input.path cwd in
      if cancelled_first
      then (err cancelled, s)
      else write_content ops cancelled_later path input.content (ops.mkdir_all (dir_of path) s)
