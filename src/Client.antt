-- ===== src/Client.antt =====
-- A caller of the PBLink assembler that may call any method in any order.
pub mod LinkEvents
pub mod LinkInvariant
pub mod LinkChildren
pub mod Provenance
pub mod ReprCalls
