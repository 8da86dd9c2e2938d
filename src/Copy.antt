-- ===== src/Copy.antt =====
-- ipldsch_satisfaction.go: AssignNode of a PBNode's builder, on the representation of a PBNode and on
-- a map of the IPLD data model.
pub mod Rows
pub mod Nodes
