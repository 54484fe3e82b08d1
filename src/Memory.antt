-- ===== src/Memory.antt =====
-- The package genkit-cowork/memory: session state, its append-only ledger, and its stores.
pub mod Types
pub mod Ledger
pub mod Window
pub mod DataUri
pub mod Budget
pub mod Store
pub mod Assets
pub mod AtomicWrite
pub mod Files
pub mod AssetStore
pub mod Numbering
pub mod Session
pub mod Turns
pub mod Vector
pub mod Samples
mod Tests
mod BackendTests
mod VectorTests
mod AssetStoreTests
