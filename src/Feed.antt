-- ===== src/Feed.antt =====
-- feed/: from the exchange's JSON to engine messages.
pub mod FeedHandler
pub mod CoinbaseFeed
pub mod WsClient
mod Tests
