-- ===== src/Channels.antt =====
-- channels/*.py: the Official Zalo Bot boundary.
pub mod Models
pub mod Store
pub mod Bindings
pub mod Outbound
pub mod Recipients
pub mod Formatter
pub mod Service
pub mod System
