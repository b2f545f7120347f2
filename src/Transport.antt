-- ===== src/Transport.antt =====
-- transport/: the messages of the threads, and the queue they go through.
pub mod Message
pub mod Intake
pub mod SpscQueue
pub mod WriteQueue
mod Tests
