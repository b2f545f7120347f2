-- ===== src/App.antt =====
-- src/main.cpp: the threads of the program, the rings between them, and how they are shut down.
pub mod Args
pub mod Ingest
pub mod Engine
pub mod Output
pub mod Pipeline
mod Tests
