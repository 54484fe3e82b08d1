-- ===== src/Memory/Session/Loads.antt =====
-- What a client of `Session` reads: after a save that fails, and under a token budget.
use genkit_cowork.Base.Bytes.{Bytes}
use genkit_cowork.Base.Result.{Result}
use genkit_cowork.Memory.Store.{Store}
