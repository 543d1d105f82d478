-- ===== src/Unistdpp.antt =====
-- libs/unistdpp: files and pipes.
pub mod WriteAll
pub mod ReadAll
pub mod Pipes
mod Examples
