-- ===== src/Unmarshal.antt =====
-- unmarshal.go: the decoder, for any target and any wire library.
pub mod Target
pub mod Link
pub mod Node
pub mod Row
pub mod LinkTotal
pub mod Phase
pub mod NodeTotal
pub mod Replay
pub mod LinkCalls
pub mod NodeCalls
pub mod LinkImage
pub mod NodeImage
pub mod ReplayBuilder
pub mod DataFirst
pub mod Duplicates
pub mod Accepts
