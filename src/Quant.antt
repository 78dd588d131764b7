-- ===== src/Quant.antt =====
-- Number formats of the quantised tensors: src/quant/.
pub mod Half
