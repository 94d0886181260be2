-- ===== src/Ble.antt =====
-- src/ble: the GATT service of FIDO and the transport over BLE. Fragment is the third file there.
pub mod Hal
pub mod Service
pub mod Link
pub mod Events
mod Gate
mod Lockout
mod Block
mod Contention
mod Sending
mod Tests
