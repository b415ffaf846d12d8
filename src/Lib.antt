-- ===== src/Lib.antt =====
-- pico-fido: models of the FIDO2, OATH, OTP and management applications of the firmware, and what they
-- guarantee.
--
-- The firmware is a set of applications over pico-keys-sdk. A host speaks to the FIDO application by
-- CTAP2 messages, whose authenticatorClientPIN subcommands enrol and check the PIN and give out the
-- PIN/UV auth token; the PIN also locks the master key file, and a token may write the large blob
-- array or manage the credentials that live on the device. A credential that does not live there is
-- held by the relying party, sealed in its identifier. The OATH, OTP and management applications take
-- command APDUs, and the OTP slots also answer frames over the keyboard interface and a press of the
-- button. All of them keep their state in flash files and in a few globals.
--
-- Files:
--   Base and its children: numbers, lists, byte memory (read_bytes, write_bytes, memcmp_eq), and Exec,
--     the handlers that change a state and may leave early with an error.
--   Sdk, Apdu, Ctap, Files, Device: what the parts share. Sdk.Flash is the interface to the flash, and
--     IsFlash its documented behaviour. Files has the identifiers of src/fido/files.h, Ctap the codes of
--     src/fido/ctap.h, Device the globals that the CTAP2 handlers share.
--   Cbor: decoded CBOR, the field macros of src/fido/ctap2_cbor.h and COSE_read_key of
--     src/fido/cbor.c.
--   Token, Token/Laws: the PIN/UV auth token of src/fido/cbor_client_pin.c (beginUsingPinUvAuthToken to
--     pinUvAuthTokenUsageTimerObserver).
--   Kek: src/fido/kek.c. Kek/Laws and Kek/Data are proofs.
--   ClientPin: src/fido/cbor_client_pin.c. Protocol has kdf, ecdh, encrypt, decrypt, authenticate and
--     verify; Params reads the request, Checks has the tests of each subcommand, Steps what the
--     subcommands share, Commands the subcommands and their dispatch. The other children are proofs:
--     Guessing, Lockout, Retries, Grant, Enrol, Memory, Invariant and
--     KeyKept.
--   Oath: src/fido/oath.c. State has the state and the parameters, Creds the credentials, Code the
--     access code, Calculate the one-time codes, Pin the OTP PIN, and Oath itself the selection and the
--     table of commands. Access, Store, Reset, Counter and Tries are
--     proofs.
--   Management, Management/Config: src/fido/management.c without the selection, the factory reset and
--     the dispatch.
--   LargeBlobs: src/fido/cbor_large_blobs.c. Its children are proofs: Upload, Fragments and
--     Array.
--   Config, Config/MinPin: of src/fido/cbor_config.c, the authentication of a request and the subcommand
--     of the minimum PIN length.
--   Otp: src/fido/otp.c. State has the state and the parameters, Crc the check sum, Slots the commands
--     on the slots, Challenge the challenges, Modhex and Button what a press types, Frames the reports of
--     the keyboard interface, and Otp itself the dispatch. Its other children are proofs: Residue,
--     Counters, Password, Hotp, Protection, Swap, Received, Sent, Answers, Stored, Updated and Sizes.
--   Keys: of src/fido/fido.c, the key of the device and the key handles. Keys/Curves has the curves and
--     fido_load_key, Keys/Handles is a proof.
--   Credential: src/fido/credential.c. Credential itself opens and recognises identifiers and derives
--     keys from them, Encode makes them, Load reads them, and Store has the resident credentials.
--     Extensions, Fields, Parts, Sealed and Silent are proofs.
--   CredMgmt: src/fido/cbor_cred_mgmt.c from the decoded request on; Commands has the credentials and
--     the dispatch. Picked, Rps and Access are proofs.
--   U2f: src/fido/cmd_register.c, src/fido/cmd_authenticate.c and src/fido/cmd_version.c. Counter,
--     Draws and Registered are proofs.
--   Cose: of src/fido/cbor.c, the COSE keys that are written.
--   Tests: a small concrete firmware, and each theorem at an input of it.
--
-- The C code maps to the models as follows. A handler `f` is a function of the same name, in snake
-- case, from a state to a result and a state: CBOR_ERROR(e) and `return SW_...()` are errors, and what
-- was written before them stays written. A long handler is cut into steps where it is long. A `while`
-- or `for` over an array is a recursion on the list or on the number of rounds left, which is the
-- bound of the loop in the code, so no fuel can run out. Bytes are natural numbers; arithmetic on
-- uint8_t, uint32_t and uint64_t has its `% 2 ^ w` written out. A write past the end of an array, where
-- the code can do one, is the error memory_fault, since C does not say what happens then.
--
-- Parameters: pico-keys-sdk (a submodule that is not in the repository), mbedtls and tinycbor. The
-- records Crypto, OathSdk, ManSdk, OtpSdk, KeySdk, CredSdk and U2fSdk hold the calls that the code makes,
-- each as a function that gives the return code and the bytes; the time is an argument where
-- board_millis() is read. Two fields stand for memory that the code reads before it is written:
-- `stack` of Crypto for an array of a function, and `beyond` of CredSdk for what lies behind
-- an encoding in the array of the caller. What a theorem needs of them is a named hypothesis: IsFlash, IsAesCbc,
-- IsAesCfb, IsUint64Be, IsUint16, IsUint32, IsRandom, IsCurve, IsAead.
--
-- Not modelled: the encoding of CBOR responses, the wiping of secrets on the stack, the size of the
-- response buffer of the SDK, keep-alive messages and the LED, and the memory of decoded requests: that
-- a value was freed is not part of a state. Of the firmware's other parts, the decoding of credential
-- management requests, the rest of authenticatorConfig, makeCredential, getAssertion, the
-- vendor commands, getInfo, the reset and start-up are not here.
pub mod Base
pub mod Sdk
pub mod Files
pub mod Ctap
pub mod Device
pub mod Cbor
pub mod Token
pub mod Kek
pub mod ClientPin
pub mod Keys
pub mod Credential
pub mod CredMgmt
pub mod Apdu
pub mod Oath
pub mod Otp
pub mod Management
pub mod LargeBlobs
pub mod Config
pub mod U2f
pub mod Cose
mod Tests
