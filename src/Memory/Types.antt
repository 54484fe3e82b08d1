-- ===== src/Memory/Types.antt =====
-- The data of genkit-cowork/memory: sessions.go, turns.go, snapshots.go and assets.go. Of a Genkit
-- message and its parts the records hold what this repository reads. A `time.Time` is a number of
-- nanoseconds, and the zero time is 0. An int64 or an int that a caller may set is a ℤ.
use genkit_cowork.Base.{ℕ, Bool, Option, List}
use genkit_cowork.Base.Int.{ℤ}
use genkit_cowork.Base.Bytes.{Bytes}

-- `ai.Role`; `other` is any other string.
pub data Role : Type 0 where
  user model tool system other : Role

-- `ai.Part`, by the answers of its `IsText`, `IsMedia`, `IsToolRequest` and `IsInterrupt`.
pub record Part : Type 0 where
  pub is_text : Bool
  pub is_media : Bool
  pub is_tool_request : Bool
  pub is_interrupt : Bool
  pub text : Bytes
  pub content_type : Bytes

-- A dynamic value of a metadata map. A float is given by its integer part.
pub data Any : Type 0 where
  int int64 float64 float32 : ℤ → Any
  other : Any

-- `ai.GenerationUsage`
pub record GenerationUsage : Type 0 where
  pub total_tokens : ℤ
  pub input_tokens : ℤ
  pub output_tokens : ℤ

-- What stands under the key "generationUsage".
pub data UsageValue : Type 0 where
  usage : GenerationUsage → UsageValue
  pointer : Option GenerationUsage → UsageValue
  entries : Option Any → Option Any → Option Any → UsageValue
  other : UsageValue

-- `ai.Message`; `metadata` is `none` for a nil map.
pub record Metadata : Type 0 where
  pub generation_usage : Option UsageValue
  pub resumed : Bool

pub record Message : Type 0 where
  pub role : Role
  pub content : List Part
  pub metadata : Option Metadata

pub data MessageOrigin : Type 0 where
  zoom ui whatsapp email model tool heartbeat : MessageOrigin

-- `unset` is the empty string.
pub data MessageKind : Type 0 where
  unset episodic semantic procedural instrumental : MessageKind

pub record SessionMessage : Type 0 where
  pub message_id : Bytes
  pub sequence : ℤ
  pub origin : MessageOrigin
  pub kind : MessageKind
  pub content : Message
  pub timestamp : ℕ

-- `TurnEvent`; its metadata is written and never read.
pub record TurnEvent : Type 0 where
  pub event_type : Bytes
  pub timestamp : ℕ

pub record TurnRecord : Type 0 where
  pub turn_id : Bytes
  pub sequence : ℤ
  pub flow_name : Bytes
  pub loop_turns : ℤ
  pub finish_reason : Bytes
  pub started_at : ℕ
  pub ended_at : ℕ
  pub first_message_sequence : ℤ
  pub last_message_sequence : ℤ
  pub message_count : ℤ
  pub events : List TurnEvent

pub record StateSnapshot : Type 0 where
  pub snapshot_id : Bytes
  pub sequence : ℤ
  pub captured_at : ℕ
  pub tenant_id : Bytes
  pub session_id : Bytes
  pub message_count : ℤ
  pub turn_sequence : ℤ
  pub state_version : ℤ
  pub state_checksum : Bytes

pub data AssetIngestStatus : Type 0 where
  unset pending completed failed : AssetIngestStatus

pub record SessionAsset : Type 0 where
  pub asset_id : Bytes
  pub message_id : Bytes
  pub name : Bytes
  pub part_index : ℕ
  pub mime_type : Bytes
  pub size_bytes : ℕ
  pub sha256 : Bytes
  pub path : Bytes
  pub uploaded_at : ℕ
  pub ingest_status : AssetIngestStatus
  pub ingested_at : ℕ
  pub metadata : List (Bytes × Bytes)

pub record SessionState : Type 0 where
  pub tenant_id : Bytes
  pub messages : List SessionMessage
  pub turns : List TurnRecord
  pub snapshots : List StateSnapshot
  pub assets : List SessionAsset
  pub last_consolidate_at : ℕ

pub data PersistenceMode : Type 0 where
  keep_all sliding_window tail_ends_pruning token_budget : PersistenceMode
