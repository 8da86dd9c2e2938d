-- ===== src/Marshal.antt =====
-- marshal.go: the encoder, for any wire library.
pub mod Sort
pub mod Collect
pub mod Append
pub mod Image
pub mod Links
pub mod Encoded
pub mod Encodable
pub mod Order
pub mod LinkOrder
pub mod Unique
pub mod Rejects
