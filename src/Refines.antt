-- ===== src/Refines.antt =====
-- The typed assemblers against the description in Reference.
pub mod Access
pub mod LinkSteps
pub mod LinkValues
pub mod ListValues
pub mod RootSteps
pub mod RootValues
pub mod Built
pub mod EntryKey
pub mod Finishes
