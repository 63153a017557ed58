-- ===== src/StatsManager.antt =====
-- The stats manager program of PubSub/StatsManager.
pub mod Notifications
pub mod FileUpdating
pub mod MainLoop
pub mod Network
