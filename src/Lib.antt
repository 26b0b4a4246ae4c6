-- ===== src/Lib.antt =====
-- A model of the reference device agent: the device side of secure credential rotation.
--
-- The agent receives rotation commands over MQTT, installs the credential that a command names,
-- acknowledges the command, reconnects with the new credential and reports it. Everything that must
-- survive a restart is one record, `StateV1` of crates/reference-device-agent-core/src/state.rs: the
-- identity and the installed credential, a journal of the commands that were answered, an outbox of
-- events to publish, the revision whose reconnect is awaited and the delivery whose broker
-- settlement is pending. crates/reference-device-agent-core/src/agent.rs works on a clone of the
-- state, validates and persists the clone, and only then makes it its own.
--
-- Files:
--   Base            Booleans, lists, `Result`, texts as lists of code points, UTF-8
--   Crates          `sha2` and `uuid` as an interface with the laws that the proofs use
--   Device/Types    types.rs: identities, topics, references, commands, facts
--   Device/Artifact catalog.rs and material.rs: what a resolved artifact is, and the errors
--   Device/State    state.rs: `Stored` has the records, `Entries` the checks of one entry, `Verify`
--                   `StateV1::verify`, `Journal`, `Transitions` and `Outbound` the operations,
--                   `Hashes` the event ids, `Initial` the first state, `Validity` the predicate that
--                   `validate` decides, `Preservation` the operations on valid states, `Publication`
--                   what is published and confirmed
--   Device/Disk     the operations of `std::fs` that state.rs uses, each of which may fail
--   Device/StateStore  `StateStore` of state.rs: the state file and the credential revisions; below
--                   it what persist and install_revision write, keep and leave after a failure
--   Device/Restart  the agent over the file store, and what a restart then reads
--   Device/Catalog  catalog.rs: the artifact that a command names; `Confined` which files are read,
--                   `Entries` the checks of an entry
--   Device/Assertion  assertion.rs: the assertion of the broker on a command frame; `Fields` the
--                   bytes that are signed
--   Device/Agent    agent.rs: `Store` the interface to the store and the catalog, `Commands` the
--                   intake of commands, `Sessions` confirmation, reconnect and recovery,
--                   `Fingerprint` the payload digests, the others the properties
--   Session         apps/reference-device-agent/src/main.rs: the state of the session driver, with
--                   the errors and events of mqtt.rs; `Driver/Handlers` has its handlers and loop,
--                   `Delivery` the checks of mqtt.rs on what the broker sends
--   Rotation        crates/rotation-model: references, positive numbers, coordinates, the policy
--   Scenarios       runs of one rotation at concrete data
--
-- State and errors: an operation that mutates `self` takes the state and returns the next one beside
-- its result; `?` is a step of a `do` block of `Result`. The store is an interface: `persist` and
-- `install_revision` return the store also when they fail, so a failed call may have had effects.
-- A `u64` that the source checks is a natural number with `saturating_add` and the checked addition
-- of `next_revision` written out; an `i64` is an integer. A UUID is its 128-bit number, nil is 0. A
-- non-zero integer is a number that its constructor has checked. A text is a list of code points.
-- Every loop is a recursion on a list, and the loop of a session is a recursion on what is polled, so
-- no loop needs fuel; only `decimal`, the printing of an integer, counts 20 digits, which hold every
-- `u64`.
--
-- The disk is a list of paths with what stands there, and a list of faults that the next operations
-- take. An operation that fails may have written or removed a part; an interruption is a run in
-- which every later operation fails. Operations take effect in the order of the program and are
-- kept from then on: a sync may fail but changes nothing on the disk, so the model does not tell a
-- program that syncs from one that does not. An open and a sync of a directory are one operation,
-- and parents are not checked: the store creates them. A directory is renamed to a free path only:
-- the revisions that it could meet are never empty. The state of the lock file in the kernel is an
-- argument of `flock`.
--
-- The MQTT client is a function from the requests so far and the next one to an answer, so the
-- properties of a session hold for every client. A handler that reads the clock is given its times.
--
-- Not modelled: the opening of an agent, X.509, the packet tables of the MQTT session in mqtt.rs, the
-- JSON of wire.rs, the retry delays of main.rs, and the control client.
pub mod Base
pub mod Crates
pub mod Device
pub mod Session
pub mod Scenarios
pub mod Rotation
