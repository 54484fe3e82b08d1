-- ===== src/Media.antt =====
-- The package genkit-cowork/media: documents cut into chunks.
pub mod Chunk
pub mod Html
pub mod Registry
mod Tests
