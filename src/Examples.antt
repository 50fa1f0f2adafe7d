-- ===== src/Examples.antt =====
-- The theorems on concrete inputs.
pub mod Actor
pub mod Cluster
pub mod Serde
pub mod Network
pub mod Registry
mod Calls
mod Ending
mod Logging
mod Remote
mod Util
mod Pool
mod Lifecycle
