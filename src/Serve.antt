-- ===== src/Serve.antt =====
-- State that the server keeps between requests and during a reply: src/serve/mod.rs.
pub mod PrefixCache
pub mod Thinking
pub mod Json
pub mod Http
pub mod Request
pub mod Generate
pub mod Reply
pub mod Worker
pub mod Route
mod Tests
