-- ===== src/Client.antt =====
-- The client program of PubSub/Client.
pub mod Command
pub mod Receiving
pub mod Network
pub mod Menu
pub mod StressTest
