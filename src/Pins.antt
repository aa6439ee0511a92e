-- ===== src/Pins.antt =====
-- fpga/ulx3s/check_pins.py, which compares the constraints of the board's pins with the ports of the design.
pub mod Table
pub mod Scan
pub mod Clock
pub mod Near
pub mod Ports
pub mod Verdict
pub mod Agreed
pub mod Passes
mod Tests
