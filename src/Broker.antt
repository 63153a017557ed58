-- ===== src/Broker.antt =====
-- The broker program of PubSub/Broker.
pub mod Parsing
pub mod OutgoingBuffer
pub mod MessageQueue
pub mod SocketList
pub mod Subscribers
pub mod Topic
pub mod Execution
pub mod Receiving
pub mod Threads
pub mod Shutdown
pub mod Wakes
pub mod Sending
pub mod Network
