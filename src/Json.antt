-- ===== src/Json.antt =====
-- The JSON library of src/json/, in namespace pson, and src/common/json.hpp.
pub mod Value
pub mod Numbers
pub mod Writer
pub mod Parser
pub mod Decimal
pub mod Layout
pub mod Objects
pub mod Readable
pub mod RoundTrip
pub mod File
