-- ===== src/Parser.antt =====
-- lib/binance/parser.cpp: from the text of a message to the updates, trades and snapshots in it.
pub mod Decimal
pub mod Fields
pub mod Fixtures
pub mod Events
pub mod Depth
pub mod Combined
pub mod Rows
pub mod Snapshot
pub mod Trade
pub mod Calls
mod Tests
