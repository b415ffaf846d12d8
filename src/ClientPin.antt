-- ===== src/ClientPin.antt =====
-- cbor_client_pin.c: the authenticatorClientPIN command.
pub mod Protocol
pub mod Params
pub mod Steps
pub mod Checks
pub mod Commands
pub mod Lockout
pub mod Retries
pub mod Guessing
pub mod Memory
pub mod Grant
pub mod Enrol
pub mod Invariant
pub mod KeyKept
