-- ===== src/Lib.antt =====
-- Two-party BOLT-03 secret derivation: the Rust program of rust/crates.
--
-- Two daemons hold one share each of a channel's seed. They precompute garbled
-- derivations of the channel's secrets in jobs, reveal one secret after another, and
-- derive from a revealed secret those that follow from it without the peer.
--
-- Types models rust/crates/shachain2pc-types/src/lib.rs: Index48 (`index_from_hex`,
-- `to_hex12`), Value32 (`value_from_hex`, `to_hex`, `xor`, bits). Shachain models
-- generate_from_seed, at_index and combine of rust/crates/shachain2pc-circuit/src/lib.rs and
-- derive_from_known of rust/crates/shachain2pc-daemon/src/helpers.rs; `Sha256::digest` is the
-- parameter `digest`. Circuit models the rest of
-- rust/crates/shachain2pc-circuit/src/lib.rs: the plans of split_chain_bits and plan_tile_levels;
-- in Circuit.Bristol the gates, parse_bristol and eval_bristol; in Circuit.Builder the Builder,
-- apply_gadget and the derivation and chunk circuits around a gadget for the SHA-256 compression,
-- which is an argument. A gate list runs on a list of wires, and in the proofs on a function from wires
-- to bits (Bristol.Store); Builder.Ready is the builder's invariant, and Builder.Apply what a
-- gadget adds to it. Circuit.Digests has the digests of circuits that the parties
-- compare. A panic of the source is the error `panicked`: an index out of bounds in eval_bristol or
-- apply_gadget, and a builder's `i32` counter that has overflowed, of which a release build would wrap.
-- The tile circuit is not modelled.
--
-- MpcTypes models rust/crates/shachain2pc-mpc-types/src/lib.rs: frames, their checks and their
-- protobuf records; the encoder and decoder that prost generates are the parameter `Prost`,
-- of which `IsProst` says that a message reads back from its bytes. Flow models ChannelFlow and
-- the session handshake of rust/crates/shachain2pc-mpc-core/src/channel_flow.rs, where an error
-- comes with the state after it. Runner models run_session_handshake of
-- rust/crates/shachain2pc-mpc-runner/src/lib.rs over a transport that is a queue: the frames still to
-- be received, and the frames sent. Runner.Transport has ByteFrameTransport, on the bytes of a
-- stream, and MemoryTransport.
--
-- Reveal models the opening of shared wires in rust/crates/shachain2pc-mpc-core/src/reveal.rs and the MAC
-- check at the end of channel_flow.rs there: a block is a number below `2 ^ 128`, and SHA-256 a
-- parameter. Reveal.Honest and Reveal.Open have what the openings give to parties whose shares are
-- related. The field multiplication of that file is not modelled.
--
-- Daemon models rust/crates/shachain2pc-daemon/src. Record has the records and mutations of db.rs;
-- State has the shared state of lib.rs and the queue of batches. Each critical section under
-- the daemon's lock is one function on the state, and an operation of several sections is their
-- sequence with nothing between them, but for Db.Sections; what other sections answered before it, such as
-- the number of workers or the peer's nodes, is an argument. Secrets has derive_known
-- and store_known_secret, Frontier the stored nodes (load_node, store_node,
-- next_missing_frontier, reconcile_with_peer), Precompute the admission and the end of jobs,
-- all of state.rs, and Channels the handlers set_config, enable_channel and disable_channel of
-- services.rs. Batch has what a batch leaves alone. Db has the encrypted table of db.rs, the writer's
-- transactions and the loading of the table: Db.Records takes the table to a map from logical keys to
-- records, Db.Sections lets calls with a section under the lock and a batch queued after it run side by
-- side, Db.Load and Db.Keys say what such records load to, and Db.Mirror and Db.Writes compare them
-- with the channels in memory. HMAC, AES-GCM and serde_json are the parameter `DbCrypto`, of which
-- `IsDbCrypto` says that HMAC does not collide on logical keys and that the others read back what they
-- wrote.
--
-- Base has the shared names: native numbers and their Boolean tests, lists, results, bits, and maps as
-- association lists. A `BTreeMap` of the source is such a list; its iteration order is that
-- of the list.
--
-- Numbers are native and unbounded; `% 2 ^ w`, `min` at `2 ^ 64 - 1` and subtraction that stops at 0
-- are written where the source wraps, saturates or cannot go below 0. The one function on fuel
-- is `tile_levels`: its fuel is one more than the offset, which falls at every round. All others
-- recurse on their data or on a number of bits or indices.
--
-- Not modelled: the garbled-circuit and oblivious-transfer kernels (rust/crates/shachain2pc-emp-wire,
-- rust/crates/shachain2pc-emp-compat, the pools of rust/crates/shachain2pc-mpc-core), whose contracts are
-- cryptographic; sockets, gRPC and task spawning; the files of the database and their migration by renaming; the
-- command line modes of rust/crates/shachain2pc-party; the C++ program under cpp.
pub mod Base
pub mod Types
pub mod Shachain
pub mod Circuit
pub mod MpcTypes
pub mod Flow
pub mod Runner
pub mod Daemon
pub mod Reveal
