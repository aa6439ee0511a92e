-- ===== src/Esp.antt =====
-- sw/linux/fake_esp.py, the far end that stands in for the ESP32 modem when koti-net is tested.
mod Pages
mod Mock
mod Socket
mod Program
mod Damage
pub mod Loop
pub mod Kept
pub mod Registered
pub mod Served
pub mod Split
pub mod Transaction
pub mod Counted
pub mod Counts
pub mod Resync
pub mod Fetch
pub mod Calls
pub mod Collected
pub mod Fetched
pub mod Page
mod Tests
pub use Pages.*
pub use Mock.*
pub use Socket.*
pub use Program.*
