-- ===== src/Lib.antt =====
-- The relayer of the Sui Stack Messaging template for Nitro enclaves (the crate in src/relayer):
-- clients send encrypted messages over HTTP, the relayer authenticates them, stores them in
-- memory, signs what it answers, follows the memberships of groups on the chain, and archives
-- messages to Walrus.
--
-- A request for messages passes the middleware (src/relayer/src/auth/middleware.rs), which reads
-- the store of memberships, and then a handler (src/relayer/src/handlers/messages/handlers.rs),
-- which reads and changes the store of messages (src/relayer/src/storage/memory.rs). Two tasks
-- run beside: the membership service (src/relayer/src/services/membership_sync.rs) changes the
-- memberships by the events of the chain, and the Walrus worker
-- (src/relayer/src/services/walrus_sync.rs) reads messages by status, uploads them and changes
-- their status.
--
-- - Models: src/relayer/src/models. Message.new, set_order, mark_for_deletion and update_content
--   are the methods of the same names.
-- - Storage: src/relayer/src/storage. Storage.Memory has one function per method of
--   InMemoryStorage, from the store to the store and the result. create_message is next_order,
--   then insert_message, since the source gives up the lock on the counters between them;
--   Storage.Interleaving has these sections as steps that any other handler may come between. A
--   HashMap is an association list and a HashSet a list, whose order stands for that of an
--   iteration.
-- - Auth: src/relayer/src/auth. auth_middleware is credentials (steps 1 to 6 of the source), then
--   authorize (steps 7 to 10). Auth.Binding and Handlers.Binding say what signed bytes determine.
--   Auth.View is what the store of memberships says, without its representation.
-- - Handlers: src/relayer/src/handlers. What create_message and update_message decode alike is
--   decode_content. Handlers.Server is the route POST /messages of src/relayer/src/main.rs, and
--   Handlers.Routes has all routes (serve); Admittance, Ownership and Confidentiality are about
--   them.
-- - Services and Walrus: src/relayer/src/services and src/relayer/src/walrus. Walrus.Client has
--   the five methods of the client; Services.WalrusDelivery puts store_quilt under the worker;
--   WalrusUploads, WalrusTransitions, WalrusBatches and WalrusProgress are about its uploads.
--   handle_response is one turn of the loop over the checkpoint stream; turn is one of the loop
--   of the Walrus worker.
-- - Relayer: src/relayer/src/main.rs as a whole. start builds the state that the server and its
--   two tasks share, and step is what one input (a request, a checkpoint or a wake-up of the
--   worker) makes of it.
-- - Config: src/relayer/src/config.rs. from_env is a function of the environment; Config.Ranges
--   and Config.Reading say what it gives.
-- - Boot: src/init, src/system and src/aws. Boot.Kernel is what the program asks of the kernel: a
--   part of the program goes from the trace of its calls so far to the trace and a result, and
--   each answer is a function of that trace (the record Os). Boot.System, Boot.Nitro and
--   Boot.Init have a function for each function of the source; a loop over an array is one over a
--   list.
-- - Enclave: src/relayer/src/enclave.rs, the signed responses, the log lines and the attestation.
--   Enclave.LogLayer is the layer of src/relayer/src/main.rs that makes the lines out of events.
-- - Common: the shared types and lemmas: results, integers, maps, texts, Boolean tests.
-- - Tests: concrete runs.
--
-- Numbers: an i64 is an integer whose sums and differences wrap (wrap_i64), as in the release
-- profile; usize counts of the Walrus worker wrap at 2^64; lengths do not. Only two definitions
-- need fuel: the printing of a number, which has as much as the number is large, and
-- collect_entropy, which has as much as bytes are asked for, and adds 256 in each round.
--
-- Parameters: the events that the program logs, hexadecimal digits, hashes, signatures and their
-- verification, the encodings serde_json and bcs, the texts of identifiers, the clock, new
-- identifiers, the checkpoint stream, the environment variables, what axum reads off a path and a
-- query, the answers to HTTP requests, and what the kernel answers to a call. Printing never
-- fails. A lock is never poisoned, since a panic ends the process.
--
-- Not modelled: the scheduling of the tasks, the channel between them, and the layer for other
-- origins (src/relayer/src/main.rs), which only passes on.
pub mod Common
pub mod Models
pub mod Storage
pub mod Auth
pub mod Walrus
pub mod Config
pub mod Boot
pub mod Relayer
pub mod Services
pub mod Enclave
pub mod Handlers
pub mod Tests
