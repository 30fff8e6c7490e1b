-- ===== src/Lib.antt =====
-- A model of the core of nestory, an embedded in-memory database for Go that keeps the rows of each
-- entity type in memory, logs its commits, and saves changed chunks of rows to files.
--
-- The parts, and the files that model them:
--
--   * chunkstore.go is ChunkStore: the arena of an entity type, in blocks that never move. Its
--     operations are `append` (Append), `load_chunk` (loadChunk), `delete_func` (DeleteFunc), `range`
--     (Range), `len` (Len) and the dirty flags. ChunkStore/Shape has the invariant, Grow, Live and Delete
--     what the operations do to the live elements, and Stable the steps of a store and what stays
--     at an address.
--   * wal.go and transaction_wal.go are Wal: the frames of the log of one entity type (Wal/Frame) and
--     of the log of the transactions over several (Wal/TransactionFrame), what a restart reads of
--     a log (Wal/Replay), the operations on the file of a log (Wal/Log), and the encoding of a
--     row (Wal/Row). Wal/Durability has what an append means for a later restart. A file is the
--     list of its bytes, and a `Device` holds the answers of the operating system to one call:
--     how much of a frame it writes, and which calls fail. Nothing is assumed of those answers.
--   * storage.go is Storage: `save` and the part of loadStore that reads the chunk files, over a
--     directory that maps a chunk's number to its rows. gob and the file system are left out.
--   * secondary_index.go is SecondaryIndex: the order of the indexed values and their keys (Value),
--     sort.Search (Search), an index with its maps (Index), `rangePrefix` and `rangeAfter`
--     (Ranges), the entries under adding, removing and merging (Entries), the two phases around a
--     commit (Upkeep), and the unique checks (Validate). Keys has the laws of the keys.
--   * engine.go and the rest of db.go are Engine: the rows that a commit is logged as (Writes, Commit),
--     the resources of a transaction (Resources: recordBatch and work, with the positions in a map
--     or not), the commit of a single write (Single: commitSingleWrite, refresh, evict,
--     applyWrite), what a transaction collects (Transaction/Staging: stageCreate, stageDelete) and
--     its commit over any number of tables where no relation changes (Transaction: the changes and how
--     they are logged and applied, Transaction/Commit: the steps of `commit`; Checks, Checked, Failure
--     and Success have what they do), and, with branchlock.go, the locks that a commit takes
--     (Locks: the graph, the rows that snapshotTouchedResource copies, the structures of the tables,
--     the branches and the resources; Locks/Steps has their order, Locks/Progress the steps of
--     commits that run side by side).
--   * relation_runtime.go and relation_index.go are Relations: the nodes and the declared relations
--     (Node), the model that is built from them (Model, Scan: scanNodeRelations, Build: attachNodeOwner and
--     buildRelationModelFromTargets), the check for ownership cycles (Cycles), what a deletion
--     takes with it (Deletion: deletionClosure), and `nodeKeySet` (KeySet).
--   * persist.go, and the parts of db.go and relation_runtime.go that give ids, are Queues: the counter
--     (seedCounter, relationPrepareCreate) and the queues of a flush (queueCreate, queueDelete,
--     relationApplyPending).
--
-- A commit writes a frame to a log (Wal), changes the entities in place, which marks their chunks
-- dirty (ChunkStore), and takes them out of the indexes before and puts them back after
-- (SecondaryIndex). `save` writes the dirty chunks (Storage), after which the logs are truncated; a
-- restart loads the chunks and replays the logs.
--
-- A flush with relations collects the nodes of the tables, builds the model, takes the closure of the
-- deleted nodes, and saves. A commit asks for locks in one order.
--
-- Bounds and fuel. An int is a 64-bit signed integer where its bits are encoded and where the counter
-- of the ids is raised, and a length that is written as four bytes is checked as the code does. The loop of the replay takes the length of
-- the file and one more as fuel: a round that goes on has read the four bytes of a length.
-- `sort.Search` takes the length of the list, since a round makes the interval shorter. A
-- walk up the owners takes as many steps as nodes have owners, and one; the loop of a deletion takes
-- a step for each node to delete and for each that can be below one. All other loops go through a
-- list. A chunk has 512 slots. A Go map is a list of pairs, and a loop over one goes through the list,
-- which may be in any order.
--
-- Parameters. encoding/gob (`Gob`) and the conversions between the two floating-point formats
-- (`Float32`) are parameters, as are the encoding and the decoding of a row in Engine and in the
-- replay; Commit and Single have that decoding undoes encoding as a hypothesis. The relations that
-- the tags of a type declare (relationSpecs), the registry of the tables and the sets of the tables
-- with secondary indexes and with relations are functions that are given, and so are the rows that
-- materializeOwnBackReferences copies and adds.
--
-- Not modelled: mutexes inside an operation, since each operation here is one step under its locks; the
-- priority of a waiting writer over new readers; the rewiring of live pointers, views, towers,
-- snapshots and queries, which work on live Go objects by reflection; the commit that changes
-- relations. `commit` is given whether a table has secondary indexes and what their check says; what a
-- commit does to the indexes is in SecondaryIndex.
pub mod Common
pub mod Wal
pub mod ChunkStore
pub mod Storage
pub mod SecondaryIndex
pub mod Engine
pub mod Relations
pub mod Queues
pub mod Tests
