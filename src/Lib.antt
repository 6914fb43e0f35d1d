-- ===== src/Lib.antt =====
-- nixdeploy moves a machine to a signed target system: a receiver fetches a signed document,
-- checks it against its own configuration and store, sizes the change, and either activates the
-- target, or refuses and asks for the machine's replacement. The documents come from a release
-- store, in which promotions are recorded, or from a publisher. This library models the receiver,
-- the documents that it trusts, the store, the publisher, and the commands of a release service.
--
-- The parts and their files:
-- - Base, Text, Map: results, native-number tests, texts as lists of code points, and the maps and
--   sets of src/*.rs (BTreeMap, BTreeSet) as association lists in key order.
-- - StorePath, Backend, Version, Artifact: the value checks of src/manifest.rs and src/release.rs
--   (looks_like_store_path, looks_like_timestamp, parse_version, ArtifactRequirements::check,
--   validate_artifact) and store_hash of src/delta.rs.
-- - Trust: parse_public_key, verify, parse_signing_key and sign_detached of src/manifest.rs.
--   Base64, Ed25519 and SHA-256 are the fields of the record Crypto; CryptoLaws states what the
--   code relies on of them.
-- - Manifest: the document of src/manifest.rs and validate. Release (Sets, Envelope, Selection):
--   deployment sets, signed envelopes and the selection and composition of leaves of
--   src/release.rs. A serde_json form is a Codec.
-- - Store (Records, Journal, Recover, Promote): ReleaseStore of src/release.rs, its journal of
--   signed records, promote and recover. Its other children prove what they do to files: Kept and
--   Quiet what stays, Linked and Backed what is written, Entry what a record says by the bytes of its
--   file, Chain and Latest what the journal says, Settled, Recovered, Outcomes and Promoted the
--   results.
-- - Publish (Args, Calendar, Run): publish, parse_args and iso8601_utc of src/publish.rs. Its other
--   children prove what a publication writes (Written, Paths, Files) and what receivers make of it
--   (Received). Digits: the decimal texts of numbers, as Rust's format strings write them.
-- - PromoteCommand (Args, Recovery, Terminal): src/promote.rs. VerifyRelease (Args; Roots, Ascending
--   and Verified prove what an inventory lists): src/verify_release.rs. CommandLine: the walk over
--   arguments that the commands share; Written and Commands prove what it makes of them.
-- - Select: verify_and_select and verify_release_and_select of src/manifest.rs.
-- - Command, Activate: tokenize, the adapter's commands and the health gate of src/activate.rs.
--   AtomicFile: write_atomic of src/atomicfile.rs.
-- - Delta: compute, exceeds_ceiling and classify_path_info of src/delta.rs. Outcome:
--   src/outcome.rs. Metrics: render of src/metrics.rs; Samples reads its text back.
-- - World: the operating system (processes, files, HTTP, the trait Env of src/receive.rs) as the
--   record Os, and a run as state passing with early returns. Each effect leaves an event in a log
--   that no code reads, newest first; the theorems on the receiver's runs are about the log.
--   Files: what the file operations of Rust's standard library do to the contents of files, as the
--   record FileLaws. Each may fail at any time, so a run that is cut off is one in which all
--   operations after some point fail. Triple: rules for what a computation does to the machine.
-- - Receive (State, Resolve, Recover, Reimage, Converge): run_with of src/receive.rs and all that
--   it calls. Its other children prove the theorems on runs: Log, Frame, Silent, Permits and Order
--   have the rules, Evidence what an answer rests on, Run the results.
-- - Examples: a toy machine with documents, at which the theorems are applied.
--
-- Numbers: sizes are natural numbers whose sums saturate at 2^64 - 1, as in the source; decimal
-- texts that do not fit 64 bits are errors. Fuel: the walk of Delta.compute takes fuel, since the
-- source bounds it by nothing but the references that it meets; a Setting names the rounds, and a
-- run that uses them up fails in the stage "delta". The decimal digits of a process ID are
-- computed with fuel 20, more than a 32-bit number has digits; a generation of the journal, which
-- is a u64 and wraps, has at most 20 as well. All other recursion is structural.
--
-- Messages are constructors that carry what the source's texts name. Not modelled: the HTTP
-- client, JSON, printing, the loss of writes that were not synced when a machine goes down,
-- the paths' parent directories (a file is its directory and its name), paths that end in a slash or
-- in "..", days before 1970 (seconds are a u64), the permissions of written files,
-- load_config, parse_args and the real environment of src/receive.rs, narinfo parsing, the sinks of
-- src/metrics.rs, and everything in Nix.
pub mod Base
pub mod Text
pub mod Digits
pub mod Map
pub mod StorePath
pub mod Backend
pub mod Version
pub mod Artifact
pub mod Trust
pub mod Manifest
pub mod Release
pub mod Command
pub mod Delta
pub mod Outcome
pub mod World
pub mod Select
pub mod Metrics
pub mod CommandLine
pub mod Store
pub mod Publish
pub mod VerifyRelease
pub mod PromoteCommand
pub mod AtomicFile
pub mod Activate
pub mod Receive
pub mod Examples
