-- ===== src/Core.antt =====
-- core/: types, orders in pool memory, price levels, the book, the pool and the engine.
pub mod Types
pub mod Order
pub mod Store
pub mod PriceLevel
pub mod OrderBook
pub mod MemoryPool
pub mod MatchingEngine
mod Tests
