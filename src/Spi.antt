-- ===== src/Spi.antt =====
-- test/spimem.py, the behavioural flash and PSRAM of the test bench, as a state machine on clock edges.
pub mod State
pub mod Edges
pub mod Drive
pub mod Serial
pub mod Read
pub mod RoundTrip
pub mod Quad
pub mod Agree
mod Tests
