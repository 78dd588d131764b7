-- ===== src/Gguf.antt =====
-- The GGUF v3 loader: src/gguf/.
pub mod Types
pub mod Error
pub mod Reader
pub mod Value
pub mod TensorInfo
pub mod File
mod Tests
