-- ===== src/Run.antt =====
-- Concrete runs: an instance of the wire library and of the CIDs, tests, and the theorems at concrete
-- inputs. No other module uses these.
mod Wire
mod Cid
mod Decode
mod Blocks
mod Registry
mod Examples
mod Refine
mod Interfaces
mod Calls
