-- ===== src/Flows/Heartbeat/Reply.antt =====
-- When a heartbeat's reply is an acknowledgement, and when it is delivered.
use genkit_cowork.Base.{◌++◌, ◌≡◌}
use genkit_cowork.Base.Bytes.{Bytes}

abbrev pub Starts : Bytes → Bytes → Type 0
Starts s p = (rest : Bytes) × (p ++ rest ≡ s)

abbrev pub Ends : Bytes → Bytes → Type 0
Ends s p = (front : Bytes) × (front ++ p ≡ s)
