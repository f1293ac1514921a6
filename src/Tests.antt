-- ===== src/Tests.antt =====
-- Concrete inputs: the theorems applied where their hypotheses hold.
pub mod Log
pub mod Tx
pub mod Pages
pub mod Files
pub mod Ring
pub mod Io
pub mod Slab
pub mod Tags
pub mod Ckpt
pub mod Data
