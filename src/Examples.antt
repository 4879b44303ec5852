-- ===== src/Examples.antt =====
-- Concrete pools, and the theorems applied to them.
pub mod Inputs
pub mod Pools
pub mod Others
pub mod Views
pub mod Streams
pub mod Reloads
pub mod Bills
pub mod Requests
pub mod Bridges
pub mod Chats
pub mod Refreshes
