-- ===== src/Lib.antt =====
-- A verification library for DistCache, a distributed in-memory cache in Go.
--
-- The program's parts. A cache (internal/cache) routes a key to one of its shards. A shard stores
-- the items, keeps the memory that they take, evicts by a policy (internal/eviction) when it is
-- over a limit, drops expired items when it meets them and in a sweep, and tells a subscriber of
-- every change by events. Persistence (internal/persistence) appends these events to a file as
-- records and reads them back after a restart. Transactions (internal/txn) listen to the events to
-- learn whether a watched key has changed. A primary sends the events to its replicas as frames
-- (internal/replication). The server (internal/server) reads the commands of its clients
-- (internal/resp) and runs them on these parts. The hash ring (internal/hashring) spreads keys
-- over the nodes of a registry (internal/cluster). Publish and subscribe (internal/pubsub) hands
-- messages to bounded queues. Leases on keys (internal/locks) stand beside the cache.
--
-- What models what.
--   Base              bytes and strings as lists of ℕ, int64 with its wrap-around, the decimal and
--                     big-endian formats of the Go library, maps as association lists
--   Eviction/Policy   the interface Policy of internal/eviction/policy.go, with the laws that a
--                     shard relies on: Bounded, Tracking and Recency
--   Eviction/Lru, Eviction/Fifo, Eviction/Queue
--                     lru.go and fifo.go: the list and index that they share, and their operations
--   Eviction/Random   random.go: the slice of keys and its index
--   Eviction/Ttl      ttl.go: the expiry times and the heap, with container/heap as a parameter
--   Eviction/Drain    the victims of evictions one after another
--   Eviction/NoEviction
--                     the policy of policy.go that names no victim
--   Cache/Item        internal/cache/item.go and event.go
--   Cache/Shard       internal/cache/shard.go: one function per method, over any Policy; its child
--                     modules prove what the methods keep
--   Cache/Wire        the payload of a record, as internal/persistence/codec.go and
--                     internal/replication/codec.go lay it out
--   Persistence/Codec internal/persistence/codec.go: whole records, torn and corrupt ones
--   Persistence/Aof   internal/persistence/aof.go: the file, its buffer, compaction and reading
--   Locks             internal/locks/locks.go
--   Persistence/Snapshot, Persistence/Manager
--                     internal/persistence/snapshot.go and manager.go: snapshots and recovery
--   Cache/Store       internal/cache/cache.go: the cache over its shards
--   Cache/Dispatch    the goroutine of internal/cache/cache.go that numbers the events and tells the
--                     subscribers
--   Replication/Codec internal/replication/codec.go: frames and events on a connection
--   Replication/Primary
--                     internal/replication/primary.go: the connections to the replicas
--   Replication/Replica
--                     internal/replication/replica.go: what a replica does with the frames
--   Replication/Converge
--                     what events do to one key, for snapshots taken while events go on
--   Resp              internal/resp/resp.go and reply.go: commands and replies on a connection
--   Server/Reply      internal/server/commands.go: the replies and how they are written
--   Server/Handlers, Server/Options, Server/World
--                     commands.go: the commands that need the cache only
--   Server/Conn, Server/Topics, Server/Reports
--                     server.go, server_pubsub.go and commands.go: the state of the server and of a
--                     connection, and the other commands
--   Server/Dispatch   commands.go: which command is run or queued, and the loop of server.go
--   Txn               internal/txn/txn.go: transactions that watch keys
--   Ring              internal/hashring/hashring.go: the consistent hash ring
--   Cluster           internal/cluster/registry.go: the nodes of the cluster, over the ring
--   PubSub            internal/pubsub/pubsub.go: topics and their subscriptions
--   Tests             runs at concrete inputs
--
-- How it is modelled. A method is a function from a state to a state and its results: a method
-- that holds its mutex throughout is one step, and Publish, which does not, is the step of its
-- copy of the targets and one send after another. The clock, random tokens, and how many buffered
-- bytes the writer hands to the file at a write are arguments, and so are the seeded hash of the
-- cache, CRC-32 of the ring, the generator of math/rand and the heap of container/heap. A map is
-- an association list; where the source ranges over a map, the order is that of the list. A string
-- is its bytes. int64 and int wrap around at 64 bits. What a shard sends to its sink is the list
-- `emitted`.
--
-- Fuel. `evict_loop` of a shard has one round more than the weight of the policy's state, which
-- every victim lowers under a policy that is Bounded. `read_loop` has one round more than the
-- bytes of the file, of which each record takes some. `double_loop` of `next_pow2` has 63 rounds,
-- the doublings of an int64; for a number above 2^62 the loop of the source does not end, and the
-- model stops at its fuel. `acquire_blocking` runs over the rounds that the clock allows.
-- `evict_loop` of Eviction/Ttl has a round for every item of the heap, of which each round takes
-- one.
--
-- `read_command_loop` and `read_nested` have one round more than the bytes on the connection, of
-- which each line takes some; `replicate_loop` and `read_acks_loop` likewise, where each frame
-- takes five.
--
-- A client's connection sees the steps of other connections and of the goroutines between its
-- commands: the theorems on `serve`, the loop over the commands, are about one connection alone.
-- `serve_to_end` adds what is deferred to the end of the connection.
--
-- Not modelled: the network and failures of the file system and of writing to a connection, the
-- ticker of the sweep, the policy LFU, the metrics, and the client libraries.
pub mod Base
pub mod Eviction
pub mod Cache
pub mod Cluster
pub mod Locks
pub mod Persistence
pub mod PubSub
pub mod Replication
pub mod Resp
pub mod Ring
pub mod Server
pub mod Tests
pub mod Txn
