-- ===== src/Storage.antt =====
-- src/storage: pages on disk, in memory, and the records in them.
pub mod Replacer
pub mod Def
pub mod RecordPage
pub mod Disk
pub mod Header
pub mod BufferPool
pub mod TableHeap
pub mod Scanner
