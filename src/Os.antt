-- ===== src/Os.antt =====
-- The parts of the operating system that genkit-cowork uses: paths, and files.
pub mod Path
pub mod Disk
pub mod Io
