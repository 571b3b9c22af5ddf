-- ===== src/Lib.antt =====
-- A verification library for the KB7 keyboard's host tools: the desktop package `kb7studio`, the
-- offline planner of USB updates, the verifier that reads the flash over USB and the inspector of a
-- captured flash.
--
-- The program's parts and how they interact. `kb7studio` sends a screen or a profile to the
-- keyboard in 64-byte frames. Its `protocol.py` builds the frames of an upload and holds
-- `OfflineReceiver`, the model of the firmware's receiver against which the host code is tested;
-- `storage.py` is the model of the two flash slots in which the firmware keeps what it received.
-- `format.py` and `profile_binary.py` parse the two payloads; the receiver runs them on a COMMIT.
-- The planner `kb7-updater-plan.py` turns a captured flash image and two replacement cores into a
-- list of flash operations and argues what an interruption of each of them leaves behind; it puts
-- a gate word and a checksum correction into each core, so that a core counts as valid only when
-- its last sector is written. `kb7-isp-verify.py` reads the flash back through the boot loader and
-- checks the regions of its manifest. `inspect_stock_flash.py` reports on a flash that was read.
--
-- Files and code:
--   Base: Boolean tests on native numbers, lists with Python's slices, byte strings, little-endian
--     fields, `zlib.crc32` and its linearity, bitwise operations with the laws
--     of `^` and the bits of a number, results, and actions with a state and exceptions.
--   Storage (pc_app/kb7studio/storage.py). Header: `make_header`, `parse_header` and the `struct`
--     fields. Nor: `AtomicSlots._program` (`program`). Slots: `_slot`, `active`, `commit` with its
--     `fail_after` stages; the flash is a list of bytes and the state of an action. RoundTrip: the
--     header. Programmed, Written, Regions, Atomic: one commit. History: sequences of commits
--     against a store that keeps the last payload. Cleared: the direction of the bits.
--   Protocol (pc_app/kb7studio/protocol.py). Report: `Report`, `pack`, `unpack`. Transfer:
--     `transfer_reports`. Receiver: `OfflineReceiver`, with its State, Handlers (one per branch of
--     `process`) and Dispatch (`dispatch`, `reply_to`, `process`). Framing, Frames: the two round
--     trips of a frame. Replies, Outcomes, Answers: the answers. Valid, Kept: the
--     invariant. Accepts, Committed: what COMMIT stores.
--     Wire, Upload: a whole upload through `pack`, `unpack` and `process`. Formats: the constructor
--     and the two parsers as the validators of the receiver. Sessions: what a receiver holds.
--     Reading: a store read back.
--   Screen (pc_app/kb7studio/format.py). Records: the fixed-size records and the checks of an
--     action. Parser: `parse_binary`, one function per loop. Lists, Documents: what it accepts.
--   Profile (pc_app/kb7studio/profile_binary.py). Record: `_validate_record`. Container:
--     `parse_profile_binary`. Compile: `_default_actions` and the container that
--     `compile_profile_binary` writes around its records. Framed: the container is parsed back.
--   Updater (tools/flash-access/kb7-updater-plan.py). Regions: constants and `RegionSpec`.
--     Operations: `apply_operation`, `transition_reachable`, `prefix_outcome`,
--     `classify_reconciliation`. Staging: `append_stage_operations`. Sequence: `choose_poison`, the
--     checksums, `build_operations`. Commands: `cdb_program`, `cdb_erase`. Bitwise, Applied,
--     Interrupted: one operation. Between, Partial, Reconciled: the classes of an image, by bits. Replay, Placed, Blocks, Sectors: the staging loop.
--     Poison: the poison. Grows, Build: the whole list of operations.
--     Gf2: `gf2_solve`; Columns, Basis, Elimination, Solved, Independent are its proofs. Patch:
--     `crc_patch` and `crc_word_rank`, with Linear and Total. Target: `build_target_region`,
--     `validate_target_region` and `validate_pair_placeholder`; Stores to Promises are its proofs.
--     Loads: the layout of an ELF file, with Ranges and Extent. Baseline: `parse_manifest` and
--     `validate_baseline`. Simulation: `simulate`, with Run and Boundaries.
--   Isp (tools/flash-access/kb7-isp-verify.py). Transport: `parse_csw`, `stable_loader_descriptor`
--     and `Device._command`. Reader: the command builders and the reads of `main`. ReadOnly: what a
--     run sends. Exchange: a command against a loader that follows the transport. Reads, Regions,
--     Verified: a run against a loader that serves a flash.
--   Inspect (tools/inspect_stock_flash.py). Differences: `difference_ranges` and
--     `reference_comparison_report`. Manifest: `manifest_report` and `boot_configuration_report`.
--     Sectors: `non_erased_ranges`. Compared, Entries: what the others report.
--   The module Tests of each part holds its examples.
--
-- How state and errors are modelled. A method that changes an object is a function from the old
-- state to a result and the new one; in Storage the state comes back after an exception too, since
-- bytes that were programmed stay programmed. A `raise` is the constructor `err` with a value for
-- the class of the exception; messages are left out. Python's `int` is the native number, with the
-- masks of the source (`& 0xFFFFFFFF`) written as remainders. A byte string is a list of numbers;
-- that they are below 256 is the hypothesis `IsBytes`.
--
-- Bounds and fuel. The loops over a `range` count the rounds of that range (`round_count`,
-- `sector_count`, eight blocks of a sector). The two loops of the solver are given 32 steps for
-- words of 32 bits, since each takes away the highest bit. A reading loop of the verifier is given
-- as many rounds as bytes to read, since a read gives at least one; a loop that runs out ends in an
-- error of its own, `out_of_fuel` or `out_of_steps`, that no code raises.
--
-- The handlers of the receiver take the two parsers as a record of functions, `Validators`, so that
-- the theorems on the transfer do not depend on the formats; `format_validators` is the pair that
-- the program uses. A signed 16-bit field of a widget is kept as its value plus 32768. A text is
-- kept as its UTF-8 bytes, and `is_utf8` is the test of `bytes.decode`.
--
-- Parameters. SHA-256 and the text of `readelf` belong to libraries: the digest is a function that
-- the planner's definitions take, and the load lines are given as records. The bulk transfers of
-- libusb are the record `Bus` over a state of their own.
--
-- Not modelled. The compilers from a JSON document to a screen or to a profile record, with the
-- canonical form of a profile (profile.py), and the command line (cli.py) have no model yet. Of the
-- planner, the bundle on disk and the calls of `readelf` are left out, and names of regions, phases
-- and payload files are constructors. Of the verifier, finding, opening and closing the device are
-- left out; of the inspector, the digests and the configuration banks. The
-- executors that write to a device, the tools for the repository, the firmware in C, the web
-- application and the tests are outside this library.
pub mod Base
pub mod Inspect
pub mod Isp
pub mod Profile
pub mod Protocol
pub mod Screen
pub mod Storage
pub mod Updater
