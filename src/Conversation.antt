-- ===== src/Conversation.antt =====
-- The conversation package: conversation/.
pub mod Models
pub mod Store
pub mod State
pub mod Queries
pub mod Snapshots
pub mod Exchanges
pub mod Completion
pub mod Calls
pub mod Policy
pub mod Projection
pub mod Results
pub mod Service
