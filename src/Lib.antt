-- ===== src/Lib.antt =====
-- BoltQ: the core of a message broker with a queue plane, a stream log, a cache and a replicated
-- control plane. A publisher's message passes an exchange, which routes it to queues by its bindings;
-- a queue is a ring buffer, or ten of them by priority. Clients that retry a send are answered from
-- the claim table. On the stream plane a partition keeps a leader epoch history, from which a
-- follower learns where to truncate, and consumer groups compete for its records through a share
-- partition. Which broker leads a partition is decided by the metadata state machine, whose commands
-- the Raft log orders.
--
-- The files and the code they model:
--   Protocol            the message of pkg/protocol/message.go
--   Queue               internal/queue/queue.go: New, Push, Pop, TryPop, Close, Purge, Drain,
--                       HasMessage as functions of the same names; Queue.Represents is the list that
--                       a ring stands for
--   Priority            internal/queue/priority_queue.go: ten rings, lowest level first
--   Exchange            internal/broker/exchange.go: bind, unbind, route, topicMatch, headersMatch
--   Broker              internal/broker/broker.go: Publish and the consumption, with acknowledgement,
--                       retries, dead letters and delays in Moving and the exchanges in Exchanging; the
--                       queues are the record MessageQueue, which Queues fills with the ring
--                       buffer and Levels with the priority queue, and Runs is a sequence of calls
--   Epoch               internal/stream/epoch.go: the history, its lookups, its truncations and its
--                       checkpoint file as bytes
--   Cursor              internal/stream/cursor.go: Commit, Position, the records of the cursor log
--                       and load, which reads them back
--   Dedup               internal/dedup/dedup.go: Claim, Complete, Abandon, Lookup, Sweep
--   Stream              internal/stream/record.go: Stream.Codec has encode and decodeRecordBody
--   Stream.Segment      internal/stream/segment.go: append, seekPos and the index, with the opening
--                       and recovery in Recovery, read in Reading and truncateTo in Cutting; Holds is
--                       the list of records that a segment stands for
--   Stream.Partition    internal/stream/partition.go: Append, AppendReplicated and the changes of
--                       leadership, with Read in Reads, and TruncateTo and EnforceRetention in Trims;
--                       IsLog is the list of records that a partition stands for
--   Replication         internal/replication/leader.go: the followers' positions, WaitFor and the high
--                       watermark; Replication.Wire is protocol.go, each message as bytes, and
--                       Replication.Follower has encodeBatch and follower.go's applyBatch
--   Share               internal/queuelog/share.go: the window, its base and its transitions;
--                       Share.Acquiring, Share.Settling and Share.Releasing have acquire, ack and nack
--                       and the reaping of leases, and the releases; the stream partition is the
--                       record Log, which Share.Logs makes of Stream.Partition, and the cursor
--                       store and the dead-letter route are the record Outside
--   Cache               internal/cache/store.go: Set, Get, Del, Exists, Expire, FlushAll,
--                       CleanExpired, Restore
--   Metadata            internal/cluster/metadata.go; Metadata.Commands has the commands on one
--                       partition and the dispatch of metadata_fsm.go
--   Prelude             Go's strings, maps, slices and integers; Prelude.Dict is the map
--
-- A method that holds its component's mutex is one function from state to state, with what it
-- returns; `now` is the clock that it reads. A Go string is its bytes. A map is a list of bindings of
-- which the first of a key counts, and no theorem depends on their order, in which the code iterates
-- over a map. An error is a value; its text is left out. Where a write to disk may fail, whether it
-- does is an argument.
--
-- Loops are recursions on the lists that they run over, but for those on fuel: the heads of a ring
-- (its number of messages), the run of retired sequences at the base of a share partition (the size
-- of that set), phase 1 of acquire (the length of the heap) and phase 2 (two more than the records
-- asked for: each round but the last leases one or skips to the log's first record, which happens
-- once). TryConsume has one round more than the queue has messages, and is given the time of each
-- round. The cursor log, the frames of a segment and the headers of a record are read with the number
-- of bytes as fuel. That this is enough is part of the theorems about these functions.
--
-- The ring's head and tail wrap at 2^64 and FNV-1a at 2^32. Sequences, epochs, versions, counters and
-- times are numbers without a bound, which the code's 64 bits do not reach.
--
-- Not modelled: network, HTTP and WebSocket handlers, configuration, metrics, the Raft library and
-- its glue, JSON, the topics of the stream log, the sockets of the replication, its handshake and
-- reconcileEpoch, the write-ahead log, the gateway's sessions, identity, presence, membership,
-- fan-out, outbox and ephemeral events; of the broker, pub/sub, checkpoints, the reading of spill
-- files and snapshots; of the cache, Incr, Keys and Snapshot; of the cursors, compaction and deletion;
-- of the metadata, snapshots and listings.
pub mod Broker
pub mod Cache
pub mod Cursor
pub mod Dedup
pub mod Epoch
pub mod Exchange
pub mod Metadata
pub mod Prelude
pub mod Priority
pub mod Protocol
pub mod Queue
pub mod Replication
pub mod Share
pub mod Stream
