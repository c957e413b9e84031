-- ===== src/Common.antt =====
-- The shared utilities of the program, src/common.
pub mod Rc
pub mod Bitmap
pub mod TextMap
