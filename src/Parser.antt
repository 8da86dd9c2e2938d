-- ===== src/Parser.antt =====
-- A parser of DAG-PB blocks with no assembler in it, and the grammar that it accepts: the description
-- that `DecodeBytes` of unmarshal.go is compared with.
pub mod Link
pub mod Block
pub mod Grammar
pub mod LinkSound
pub mod LinkComplete
pub mod BlockSound
pub mod BlockComplete
pub mod Images
