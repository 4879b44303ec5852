-- ===== src/Config.antt =====
-- src/config: the data that the other parts exchange.
pub mod Decimal
pub mod Reason
pub mod Usage
pub mod Slot
pub mod Runtime
pub mod Row
pub mod Cookie
