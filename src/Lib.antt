-- ===== src/Lib.antt =====
-- QubicDB (github.com/qubicDB/qubicdb), a memory engine that keeps one isolated brain, the matrix,
-- for each index. The development models the packages that decide what is remembered and what
-- happens to it; a transport (pkg/api, pkg/mcp, cmd) only calls them.
--
-- How the parts interact: a request names an index. The registry (pkg/registry) says whether the
-- index exists; the pool (pkg/concurrency) hands it a worker, whose engine (pkg/engine) writes to
-- and reads from the matrix of that index (pkg/core) and reports firing neurons to the Hebbian
-- engine (pkg/synapse); the lifecycle manager (pkg/lifecycle) is told of the activity and moves
-- the index between its activity states, whose callbacks start consolidation and saving; the codec
-- (pkg/persistence) writes a matrix to a file and reads it back.
--
-- Files:
-- - Prelude: shared names, Boolean tests, lists, strings as lists of bytes, and Prelude.Assoc for
--   Go's maps.
-- - Core: pkg/core/types.go and pkg/core/content_validation.go. Core.Activity has BrainState,
--   Core.Neuron, Core.Synapse and Core.Matrix the structs with their methods, Core.Content
--   ValidateNeuronContent and its limit, Core.Float the interface of the float64 operations that
--   they use; Core.Energy is about the energy of neurons and the weight of synapses.
-- - Lifecycle: pkg/lifecycle/manager.go, a function for each method of Manager.
--   Lifecycle.Transitions and Lifecycle.Retirement are about CheckAndTransition,
--   Lifecycle.Recording about RecordActivity, Lifecycle.Monitor about checkAllUsers and Stats,
--   Lifecycle.Invariant and Lifecycle.Runs about sequences of calls.
-- - Registry: pkg/registry/registry.go. The file system is a value of type Disk for each call,
--   which says what of WriteFile and Rename succeeds. Registry.Saving says when a save succeeds
--   and what it leaves, Registry.Rollback and Registry.Update are about single calls,
--   Registry.Invariant and Registry.Durability about sequences of them.
-- - Persistence: pkg/persistence. Persistence.Codec is codec.go, with Persistence.Words for
--   little-endian words; Codec.RoundTrip and Codec.Corruption hold the proofs. Persistence.Io has
--   the effects of the store, in which each call of the file system may fail or be the last of the
--   process, and Io.Rules and Io.Steady the rules for them. Persistence.Wal is the format of the
--   log and Persistence.Store the store of store.go: Store.Files writes files and the log,
--   Store.Index reads, writes and checks the index, Store.Calls has the operations of Store, and
--   Store.Opening has NewStoreWithDurability with the replay of the log. Store.Log says when a
--   store agrees with a list of changes; Store.Writing, Store.Appending, Store.Flushing,
--   Store.Recording, Store.Replaying, Store.Reading and Store.Starting show that the operations
--   keep this; Store.Sessions has the lives of a store, which Store.Recovery and Store.Reopening
--   are about, and Store.Ending the loop of the replay.
-- - Engine: pkg/engine/matrix_ops.go, the operations that change the matrix. Engine.Dimension,
--   Engine.Fitting, Engine.Writing, Engine.Deletion and Engine.Runs hold the proofs.
-- - Hebbian: pkg/synapse/hebbian.go, a function for each operation; a call of updateFractalCluster
--   that OnNeuronFired starts in a goroutine is answered as a value of type Pull. Hebbian.Cluster
--   has the movement of positions, and Hebbian.Movement and Hebbian.Cube what it keeps.
--   Hebbian.Wiring says when lists of neighbours and synapses agree, Hebbian.Linking,
--   Hebbian.Strengthening, Hebbian.Pruning and Hebbian.Upkeep show that the operations keep this,
--   Hebbian.Runs has the step relation of a Hebbian engine and a matrix engine over one matrix,
--   and Hebbian.Firing is about OnNeuronFired.
-- - Search: pkg/engine/search.go. Search itself is spreadActivation, with proofs in Search.Spread
--   and Search.Order; Search.Scoring has scoreNeuron, Search.Query the method Search, about which
--   Search.Found is, and Search.Distance levenshteinDistance with its proof. Sentiment has the
--   boost of pkg/sentiment/analyzer.go.
-- - Worker: pkg/concurrency/brain_worker.go, processOp with all it calls, and ListNeurons of
--   pkg/engine/matrix_ops.go. The parts of processOp that call the engine, and then report neurons
--   as fired, are engine_part, the others upkeep. Worker.Health, Worker.Keeping, Worker.Processing
--   and Worker.Weeding hold the proofs.
--
-- The Examples module of each part applies its theorems to concrete data.
--
-- How Go is read: a map is an association list, whose order stands for the order of range, but
-- that AddNeuron, which looks for a duplicate, draws a new order at each call; a string is the
-- list of its bytes; a struct behind a pointer is stored by value where only its map holds the
-- pointer, and a pointer that a method returns is given by its key; time.Now() is an argument, a
-- time is a number of nanoseconds, and the time that passed between two readings may be negative;
-- uint32 and uint64 counters wrap around; each method that holds the lock of its object is one
-- step, and so is GetNeuron, which takes the lock twice. Loops are structural recursion over the
-- maps and lists they range over; only the replay of the log runs on fuel, a round for each byte
-- of the log, and a result shows that this is enough.
--
-- Parameters: the float64 operations (a record of operations; the order and monotonicity laws that
-- hold for them without NaN are hypotheses), the functions of package strings on Unicode text, the
-- content hash, msgpack, gzip, JSON, the vectorizer, the sentiment analyzer, and what the file
-- system and the clock do at each call. The files of a store are those of its base path, an index
-- id is a file name without separators, and a crash is the end of the process: what was written
-- stays, so the flushing to the disk (fsync) only costs calls.
--
-- Not modelled: goroutines, tickers and locks as such; the HTTP, MCP and command-line fronts
-- (pkg/api, pkg/mcp, cmd); configuration and connection strings (pkg/core/brain.go,
-- pkg/core/connstring.go); the goroutines that flush and check the store at intervals
-- (pkg/persistence/store.go); the pool and the daemons (pkg/concurrency/pool.go, pkg/daemon), and
-- of the worker its queue and goroutine; the query language (pkg/protocol); the vectorizer, the
-- cleaning of texts and the assembly (pkg/vector); the sentiment lexicon (pkg/sentiment).
pub mod Prelude
pub mod Core
pub mod Lifecycle
pub mod Registry
pub mod Persistence
pub mod Engine
pub mod Hebbian
pub mod Search
pub mod Sentiment
pub mod Worker
