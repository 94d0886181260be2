-- ===== src/Cbor.antt =====
-- src/fido2/core/cbor.c: the CBOR encoder and decoder of CTAP2. The operations are in `Encoder`,
-- `Decoder` and `Skip`; `Head` and `Item` say what the bytes of a data item are.
mod Tests
pub mod Base
pub mod Head
pub mod Encoder
pub mod Decoder
pub mod RoundTrip
pub mod Skip
