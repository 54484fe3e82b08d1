-- ===== src/Flows.antt =====
-- The package genkit-cowork/flows: the agent loop's turns, and the flows that store them.
pub mod LoopTurns
pub mod Message
pub mod Heartbeat
pub mod Event
mod Tests
mod HeartbeatTests
mod EventTests
