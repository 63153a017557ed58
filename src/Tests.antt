-- ===== src/Tests.antt =====
-- Runs of the model on concrete inputs, and the theorems at inputs that meet their hypotheses.
mod Commands
mod Lists
mod Ring
mod Main
mod Stats
mod File
mod Threads
mod Overflow
mod Delivery
mod Sending
mod Network
mod Menu
mod Shutdown
mod StressTest
mod Streams
mod MainTurn
