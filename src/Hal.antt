-- ===== src/Hal.antt =====
-- pico_aer_rx/hal: the hardware layer of the firmware.
pub mod Time
pub mod Gpio
pub mod Stdio
mod Tests
