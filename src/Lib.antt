-- ===== src/Lib.antt =====
-- The client of the Root Herald SDK for Windows: enrollment, evidence and posture, with what they read
-- from the firmware, how they drive the TPM, and the flat JSON objects of the protocol.
--
-- The event log of the firmware is parsed into entries that are classified and described
-- (src/boot/event_log_parser.cpp). The Secure Boot check runs that parser, takes the entries that
-- carry the key databases apart into certificates, and judges the chain
-- (src/boot/secureboot_validator.cpp). Both read EFI variables by src/boot/efi_variable.h. The
-- attestation key is made, activated and persisted by the class `TbsKeyProvider`
-- (src/tpm/tbs_key_provider.cpp) through the commands of class `TpmCommands`
-- (src/tpm/tpm_commands.cpp).
--
-- The driver (src/client/rootherald_win.cpp) puts these together. EnrollBegin gathers the endorsement
-- key and its certificates (src/certs, src/tpm/tpm_pcp.cpp, src/transport/http_winhttp.cpp), makes an
-- attestation key, and holds its provider for EnrollComplete, which activates and persists it. The
-- evidence is a quote by the persisted key, with the event log (src/boot/event_log.cpp) and the check of
-- it. The ABI (src/client/rootherald_client.cpp) checks pointers and forwards.
--
-- Where each part stands, under the names of the source in snake case:
--   Prelude               Boolean tests, lists, texts, and `Outcome`: `ok` with a value, `fault` for
--                         an access outside of a buffer, `stuck` for a loop out of fuel
--   Wire                  reads of integers and slices at an offset, writes of integers, and the
--                         cursor (pointer and remaining length) of the parsers
--   Json                  `JsonBuild` and `JsonGet` (src/internal/json_helpers.h); a position in the
--                         text is what stands behind it
--   Boot.EfiVariable      `TryParseEfiVariableData`, `EfiVariableName`
--   Boot.EventLog         the data of event_log_parser.h and `EventTypeName`; Describe, the readers
--                         of one entry's event data; Entry, the reader of one entry; Analysis,
--                         `ParseAndAnalyzeEventLog`; RoundTrip, logs as the firmware writes them
--   Boot.SecureBoot       the data and tables of the validator; Certificates,
--                         `ParseDerCertificate`; Signatures, `ParseEfiSignatureList`; Chain,
--                         `ValidateSecureBootChain`
--   Tpm                   the state of `TpmCommands`, HRESULTs (src/internal/win_status.h); Marshal,
--                         the bytes of the commands; Replies, Commands, Activate, Nv, the
--                         operations; KeyProvider, `TbsKeyProvider`
--   Windows               what the code calls of Windows, as parameters; and what only wraps it:
--                         Digests, Base64, Pcp (`TpmPcp`), Logs (`ReadEventLog`), Http, Handles
--                         (`UniqueHandle`)
--   Certs                 Blobs, certificates in registry values; Store, the two walks over the
--                         registry; Amd, the fetch from AMD
--   Client                Status, `RootHeraldStatus`; Fields, the maps of texts; DeviceId; Gather,
--                         `GatherEkEnrollData`; Enroll, the two legs; Evidence; Posture; Abi
--   Tests                 concrete inputs and runs
-- Proofs stand in the child modules Reads, Bounds, Safety, Operations, Counts, Verdicts, Names, Session,
-- Framing, Formats, Contents, Slots, Databases, Errors, Log, RoundTrip and its children, Lengths, Found,
-- Kept, Modulus, Responses, Ledger, Format, Merge, Total, Phases, Reachable, Requests, Quotes, Readiness, Outs, Contexts, Calls, Reports, and
-- KeyProvider/Handles.
--
-- Parameters. `CertApi` is CryptoAPI: certificate contexts, names and digests are what it answers,
-- and nothing is supposed of it. `Tbs` is the TPM behind TBS: a state and a function from a command
-- to a reply, with what a new context gives and what closing one does. All contexts of the process reach
-- the one state. Some results suppose something of it: `Serves`, that it answers the two NV commands as
-- the TPM 2.0 specification says, with an error to a TPM2_NV_Read of more bytes than its limit;
-- `IsRefusing`, that it answers every command with one error; and `BoundedReads`, that a TPM2_NV_Read gives no more bytes than were asked for, as the specification
-- says. `Windows` is the rest, with a record for each interface: BCrypt, the base64 of CryptoAPI, NCrypt,
-- the registry, WinHTTP, the log of TBS, the token of the process, and `malloc`. A call with the same
-- arguments gives the same within one call of the library, but for WinHTTP, whose reads depend on the
-- round. Of these it is supposed, where a result says so, that an enumeration of subkeys and an HTTP
-- response end (`Ends`, `Responds`), and that a digest is made of bytes (`LeavesBytes`). `Counts` gives the
-- TPM's state a count of the contexts that were made and closed.
--
-- Numbers. `size_t` has 64 bits, `uint32_t` 32 and `uint16_t` 16; sums and differences that the code
-- takes of values from the input are reduced modulo these widths. Lengths of buffers are plain
-- numbers, below 2^64 on any host. HRESULTs are their 32-bit patterns. The counters of the analysis
-- are plain numbers: TBS gives a log of less than 2^32 bytes, and an entry takes at least 16 of them.
--
-- Fuel. The walk over the log has one round for each byte and one more, and each round reads at
-- least 12 bytes. The two walks of the signature lists have one round for each byte of the data, or
-- of the list, and one more, and each round advances by at least one byte. The loops over UCS-2
-- texts have one round for each byte. The loop of `ReadNvData` has one round for each value of its
-- 16-bit offset; a TPM that returns more than was asked for can use them up, and then the model is
-- `stuck` where the code goes on; under `BoundedReads` they are enough. The loop that cuts certificates has
-- 9 rounds, for at most 8. The walk over the certificates of the endorsement key and the loop over an HTTP
-- body have no bound in the code; their fuel is an argument, and enough where it exceeds the index at
-- which the enumeration or the response ends.
--
-- Not modelled: exceptions, that is, failed allocations of the C++ library (the explicit `malloc` is
-- modelled); the wiping of secrets; threads, with the lock of a client (calls come one
-- after another; two clients share the held provider of the process, which no lock guards); the
-- creation and destruction of clients, and `FreeEvidence`, which only allocate and free; and the two version strings.
pub mod Prelude
pub mod Wire
pub mod Json
pub mod Boot
pub mod Tpm
pub mod Windows
pub mod Certs
pub mod Client
pub mod Tests
