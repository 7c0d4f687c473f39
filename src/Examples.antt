-- ===== src/Examples.antt =====
-- The example programs under examples/esp32c3_6, which run the driver on an ESP32.
pub mod Spi
pub mod Pingpong
pub mod Burst
mod Tests
