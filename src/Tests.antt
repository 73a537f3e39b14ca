-- ===== src/Tests.antt =====
-- The theorems at concrete inputs.
pub mod Instances
pub mod NativeStore
pub mod NativeTables
pub mod Clients
pub mod Transport
pub mod BackEnds
pub mod Openings
pub mod NativeReopen
pub mod Managers
pub mod Engine
pub mod Plugins
pub mod Programs
