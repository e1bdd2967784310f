-- ===== src/Lib.antt =====
-- A model of the Neural Transfer Layer, the crates runtime/ntl-core, runtime/ntl-net and
-- runtime/ntl-store-sqlite, with proofs.
--
-- A node receives signals, decides what to do with each, and learns from the outcome. Its parts:
--   Delivery     runtime/ntl-core/src/delivery.rs: delivery classes, receipts, the sender's retries.
--   Rng          runtime/ntl-core/src/rng.rs: the source of randomness and its default methods.
--   Signal       runtime/ntl-core/src/signal.rs: a signal, what a hop changes, what is signed;
--                Signal.Builder has the setters of its builder.
--   Activation   runtime/ntl-core/src/activation.rs: the gate that queues arrivals and fires batches.
--   Learning     runtime/ntl-core/src/learning.rs: rewards, decay, and sampling among scored paths.
--   Synapse      runtime/ntl-core/src/synapse.rs: a weighted link to a peer and its lifecycle.
--   Propagation  runtime/ntl-core/src/propagation.rs: who is chosen to carry a signal.
--   Store        runtime/ntl-core/src/store/mod.rs: what is persisted, and the interface NodeStore.
--   Store.Memory runtime/ntl-core/src/store/memory.rs: the reference implementation of it, with its
--                queries in Store.Memory.Queries.
--   Config       runtime/ntl-core/src/config.rs: the defaults of a node and their validation.
--   Node         runtime/ntl-core/src/node.rs: the node, over the other parts. Node.Receive has arrivals
--                and routing (receive, receive_local, plan_forwarding), Node.Feedback has receipts,
--                timeouts, penalties and links (apply_receipt, sweep_timeouts, upsert_synapse), Node.Emit emit,
--                Node.Build how a node starts (build), Node.Health learning_health.
--   Crypto       runtime/ntl-core/src/crypto.rs: how a signal is signed and verified.
--   Frame        runtime/ntl-net/src/frame.rs: signals on a byte stream.
--   Runtime      runtime/ntl-net/src/runtime.rs: what the network does around a node. Runtime.Greeting has
--                the handshake, Runtime.Sessions run_session and its writer pump, Runtime.ReadLoop the
--                reader, Runtime.Transmit forwards and receipts, Runtime.Maintenance the periodic task,
--                Runtime.Seeded load_or_create of runtime/ntl-net/src/identity.rs.
--   Sqlite       runtime/ntl-store-sqlite/src/lib.rs and schema.rs: the store that keeps its records in a
--                database. Sqlite.Codes and Sqlite.Rows have the columns, Sqlite.Methods what writes,
--                Sqlite.Queries what reads, Sqlite.Opening the pragmas and migrations, Sqlite.Schema and
--                Sqlite.Columns the tables, Sqlite.Interface the implementation of NodeStore.
--   Conformance  runtime/ntl-core/src/store/conformance.rs: the suite that each store is held to, run_all.
-- Base has shared lists, maps, sorting and integers; Float has f32; Examples has concrete runs.
--
-- Correspondence. A struct is a record and an enum a data type with the source's names. A method that
-- takes `&mut self` returns the new value; a method of the node takes the state (store, generator, gate)
-- and returns a result with the new state, so that what was written before an error stays written.
-- A longer function is split into helpers, named for what they do, that are composed as in the source.
-- Time is an argument, read once by each operation; the reader of a session takes the times of its
-- iterations. u64 sums wrap or saturate as the source has it.
--
-- Parameters. f32 is the interface Float; Float.Laws states the laws of IEEE 754 that proofs use,
-- and Float.Fixed is a concrete arithmetic that meets them. The generator is the interface Rng. The
-- encoder of serde_cbor, the text of a ulid, the `Debug` name of a signal type and the order of
-- identifiers are arguments, and so are Ed25519, BLAKE3, serde_json, the connection of rusqlite and
-- what the sockets do. A record names what a proof relies on: Frame.RoundTrip.IsCodec for the
-- encoder, Crypto.Travel.IsSound for Ed25519, and for SQLite Sqlite.RoundTrip.IsKeyed,
-- Sqlite.Migrations.IsVersioned, Sqlite.Entries.IsPersistent and Sqlite.Entries.IsMigrating. SQLite
-- keeps a value of the type of its column (Sqlite.Columns), and a number of f64 up to a function
-- that is a parameter too, which keeps all but the sign of zero.
--
-- Concurrency. The tasks of the network are steps of one state (Runtime.Reachable.Step), each an
-- iteration of a loop of the source; a channel is the list of what waits in it.
--
-- Bounds. The rejection loop of next_below, which has no bound in the source, runs on fuel: one unit
-- for a draw, which is rejected with a probability of less than n / 2^64. The reader of a session
-- runs on fuel too: a signal takes at least five bytes of the stream, so the length of the stream is
-- enough. Runtime.Ending.Ran is that loop without fuel. All other loops follow a list or a count. An
-- index out of bounds, where the source panics, is `none` in sampling and the error `panicked` in
-- the node.
--
-- Not modelled: poisoned locks, binding and dialling, the steps inside one iteration of a task, the
-- capacity of the event channel, the opening of a database file, runtime/ntl-store-postgres, which
-- implements no store, the reading of a configuration file and its part for the network, the command
-- line, error texts. A sort whose comparator meets NaN is insertion, one of the results that the source's
-- sort may have.
pub mod Base
pub mod Float
pub mod Rng
pub mod Delivery
pub mod Signal
pub mod Activation
pub mod Store
pub mod Learning
pub mod Synapse
pub mod Propagation
pub mod Node
pub mod Config
pub mod Crypto
pub mod Frame
pub mod Runtime
pub mod Sqlite
pub mod Conformance
pub mod Examples
