-- ===== src/Lib.antt =====
-- OpenFIDO: a model of the firmware's core and the theorems on it.
--
-- The firmware is a FIDO2 security key. Requests come in over USB or BLE; BLE cuts a message into
-- fragments, and a registry of transports decides which transport may talk. The requests are CBOR,
-- and what they store (PIN, counters, credentials) is kept in flash. Beside FIDO2 the key makes
-- OATH one-time passwords and is a smart card for PIV and OpenPGP.
--
-- Which file models which part:
--   Common     shared helpers: lists, bytes and words, `bit_or`, `bit_xor`, C memory and strings
--   Buffer     src/utils/buffer.c: `secure_zero`, `constant_time_compare`
--   Cbor       src/fido2/core/cbor.c. Cbor/Head says what the heads of items are, Cbor/Encoder and
--              Cbor/Decoder are the code, Cbor/Skip is `cbor_decoder_skip`; the folders below them
--              and Cbor/RoundTrip have the theorems
--   Fragment   src/ble/ble_fragment.c: the reassembly of messages and their cutting
--   Transport  src/transport/transport.c: registration, the active transport and the lock
--   Storage    src/storage/storage.c: start, formatting, the PIN and its retries, the counter, the
--              attestation key, the slots of credentials, and the credentials themselves
--   Oath       src/oath/oath.c: the table of credentials and the passwords
--   Permissions  src/fido2/permissions.c: the grant of a PIN token and the check against it
--   Piv        src/piv/piv.c: the smart card application, its PIN and its APDUs
--   UsbHid     src/usb/usb_hid.c: messages cut into packets of 64 bytes, and the answer to INIT
--   Ccid       src/usb/usb_ccid.c: the card reader, its APDU parser and the routing to applications;
--              Ccid/PivCard puts the PIV application behind it
--   U2f        src/fido2/core/u2f.c: registration and authentication, over Storage
--   Ctap2      src/fido2/core/ctap2.c: the dispatch, the description, the reset and, in Ctap2/Pin,
--              the client PIN, over Storage and Cbor. Ctap2/Ceremonies is
--              src/fido2/commands/ctap2_commands.c and Ctap2/Management is
--              src/fido2/extensions/ctap2_credential_mgmt.c, both behind the reading of the parameters;
--              so are Ctap2/Blobs and Ctap2/Config, for ctap2_large_blobs.c and ctap2_config.c there
--   OpenPgp    src/openpgp/openpgp.c: its PINs, data objects and keys, and the dispatch of its APDUs
--   Ble        src/ble/ble_transport.c and src/ble/ble_fido_service.c. Ble/Service is the GATT
--              service, Ble/Link the state of the connection, its power modes and the responses,
--              Ble/Events the requests and the events of the stack, over Fragment and Transport;
--              Ble/Hal is the interface src/hal/hal_ble.h
--   Led        src/utils/led_patterns.c: the patterns of the LED and their steps in time
--   Yubikey    src/oath/yubikey_otp.c and src/oath/challenge_response.c: modhex, the one-time
--              passwords, and the slots of challenge and response
--
-- A C struct is a record with the struct's fields, and a function that changes it takes the record
-- and gives it back with its code. An array is a list of bytes. A pointer that may be NULL is an
-- `Option`. `size_t` has 32 bits, as on the microcontrollers the firmware is built for, and its
-- sums wrap around where the source does not rule that out. Bit operations are those on numbers,
-- and a shift is a product or a quotient by a power of two.
--
-- Storage takes the platform as a record of operations on a state `W` of the outside world: the
-- flash at the offsets the source names, the random generator, and SHA-256. Where a theorem needs
-- more of the flash than its result codes, `KeepsSlots` says that it keeps what is written to
-- it. Transport takes the callbacks of the transports the same way, and a call through NULL gives
-- `none`; in Piv `none` is an access behind the end of an array. Oath takes `crypto_hmac_sha256` as a
-- function.
--
-- `skip` recurses on fuel, of which an item of Cbor/Skip/Items takes as much as its nesting is
-- deep; some other inputs have no fuel that is enough. The fragments behind the first are made on fuel
-- too, one more than the message has bytes, and each of them carries at least one byte. All else
-- recurses on its data or on a count of the source.
--
-- The encryption of credentials is a record of two functions; `IsAuthentic` says of it that
-- decryption fails for other additional data than that of the encryption. U2f and Ctap2 take the
-- button, the LED and ECDSA as operations on the same world, and there and in the credentials of
-- Storage `none` is an access behind the end of an array. Ctap2 takes `cbor_skip_value`, which the
-- source calls and does not declare, as a function, and the commands makeCredential and
-- getAssertion as another.
--
-- Ble takes the radio, the clock and the LED as a record of operations on a world, and the callbacks
-- of the application as functions on the whole device. A theorem on it says of the callbacks only
-- that they leave alone what it is about.
--
-- Not modelled: the loops that read the parameters of makeCredential, getAssertion and the extensions
-- of CTAP2, which pass numbers where pointers are expected; the BLE drivers, the keyboard, ykman,
-- mbedTLS and what calls it, the hardware abstraction of the platforms, the main loop, and the
-- logging.
pub mod Common
pub mod Ble
pub mod Buffer
pub mod Cbor
pub mod Fragment
pub mod Transport
pub mod Storage
pub mod Oath
pub mod Permissions
pub mod Piv
pub mod OpenPgp
pub mod UsbHid
pub mod U2f
pub mod Ctap2
pub mod Yubikey
pub mod Ccid
pub mod Led
