-- ===== src/Pool.antt =====
-- src/services/account_pool: the actor that owns the accounts.
pub mod State
pub mod Reset
pub mod Dispatch
pub mod Fingerprint
pub mod Collect
pub mod Flush
pub mod Probes
pub mod Loader
pub mod Reload
pub mod Actor
pub mod Conservation
