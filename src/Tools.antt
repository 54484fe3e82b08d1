-- ===== src/Tools.antt =====
-- The package genkit-cowork/tools: the file tools, their truncation and their diffs.
pub mod Lines
pub mod ResolvePath
pub mod Truncate
pub mod Read
pub mod Bash
pub mod ShellEnv
pub mod Write
pub mod Search
pub mod Endings
pub mod Runes
pub mod Trim
pub mod Fuzzy
pub mod Edit
pub mod Diff
mod Tests
mod EditTests
mod ReadTests
mod BashTests
