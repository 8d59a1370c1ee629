-- ===== src/OrderBook.antt =====
-- The deterministic Level-2 book, `OrderBook` of src/polymarket_bt/orderbook/state.py, over any
-- sorted dict. The messages of validation issues are formatted text and are left out: an issue is its
-- category.
mod Defs
mod Replace
mod Apply
pub mod Levels
pub mod Invariant
pub mod Behaviour
pub mod Depth
unfoldable pub use Defs.*
unfoldable pub use Replace.*
unfoldable pub use Apply.*
