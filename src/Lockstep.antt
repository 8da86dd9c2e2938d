-- ===== src/Lockstep.antt =====
-- The representation assemblers against the typed ones: what the typed one does without a panic, the
-- representation one does too.
pub mod LinkSteps
pub mod Link
pub mod List
pub mod RootSteps
pub mod Root
pub mod Built
