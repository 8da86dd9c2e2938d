-- ===== src/Assembler.antt =====
-- ipldsch_satisfaction.go: the assemblers of the schema's types, one module for each kind of type.
-- A pointer into the parent (`w`, `m`, `cm`) is the parent's own cell, so a child's operation acts
-- on the cell and the parent writes it back. What is left in an assembler by a call that returned an
-- error is not modelled: every caller gives the assembler up.
pub mod Scalar
pub mod Link
pub mod List
pub mod Root
pub mod LinkRepr
pub mod ListRepr
pub mod RootRepr
pub mod Calls
pub mod ScalarCalls
pub mod MapCalls
pub mod ScalarNodes
