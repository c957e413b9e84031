-- ===== src/Catalog.antt =====
-- src/catalog: the columns, the schemas and the tuples.
pub mod Column
pub mod Schema
pub mod Tuple
pub mod Meta
pub mod Tables
pub mod Files
