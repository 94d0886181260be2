-- ===== src/Storage.antt =====
-- src/storage/storage.c: the device's PIN, its signature counter, its attestation key and the slots
-- of its credentials. `Base` has the state and what the platform gives, the other modules the
-- operations; their laws are in `PinLaws` and `SlotLaws`.
pub mod Base
pub mod Device
pub mod DeviceLaws
pub mod Pin
pub mod PinLaws
pub mod Slots
pub mod Credentials
pub mod Ready
pub mod CredentialRoundTrip
pub mod CredentialLaws
pub mod SlotLaws
mod Tests
