-- ===== src/Lib.antt =====
-- Change data capture in pgmigrate.
--
-- pgmigrate copies a PostgreSQL database to another one and then replays the changes that logical
-- replication reports. The receiver decodes the stream into transactions (internal/cdc/pgoutput.go),
-- large ones with their changes in a temporary spill file (internal/cdc/spill.go); the persister
-- appends each to a directory of segment files (internal/cdc/segment.go) in the format of
-- internal/cdc/codec.go, syncs them in groups and reports the durable LSN back to PostgreSQL, which
-- may then forget what lies before it; replay reads the segments again with the decoders of
-- internal/cdc/codec_stream.go, plans which transactions may run beside each other
-- (internal/cdc/replay_plan.go) and applies them. This library models the way
-- from the message to recovery after a crash, and the replay plan.
--
-- Files, and the code that they model:
--   Base           lists and tests on native numbers, Go's (value, error) results, int64, bytes
--   Cdc/Model      internal/cdc/model.go; a *T is an Option, a string and a []byte are lists of bytes
--   Cdc/Codec      internal/cdc/codec.go: Size (transactionPayloadSize and what it calls), Encode
--                  (AppendTransaction), Decode (UnmarshalTransaction), Write (WriteTransaction);
--                  internal/cdc/codec_stream.go: Stream (decodeTransactionPrefix, decodeChangeReader).
--                  Layout is the format written as plain concatenations, with the predicate of the
--                  transactions that it carries (CanonicalTransaction: fields in the range of their
--                  Go types, data for text and binary datums alone, options on TRUNCATE alone, a
--                  payload below 2 ^ 32 bytes). The other modules are proofs.
--   Cdc/Spill      internal/cdc/spill.go: appendChange, forEachChange, materializeChanges
--   Cdc/Decoder    internal/cdc/pgoutput.go: PGOutputDecoder, as a state and a function per call;
--                  Assembles and Carries say what an active transaction holds
--   Cdc/Segment    internal/cdc/segment.go: Scan (scanSegmentWithProgress), Catalog
--                  (SegmentCatalog), Writer (openSegment, Sync, Rotate), Append (AppendFrame, Close),
--                  Recovery (listSegments, recoverDirectoryWithConfig), Open (OpenWriter). Log says
--                  which bytes a list of transactions makes; Tracks is the invariant of an open writer.
--   Cdc/Persister  internal/cdc/persister.go, Persister.Run as a run over a list of events, and
--                  DurableWatermark of internal/cdc/receiver.go
--   Cdc/Maintenance  internal/cdc/maintenance.go: SegmentCatalog.prune, over the file system's answers
--   Cdc/EndPosition  internal/cdc/end_position.go: NormalizeEndPosition, over the results of the reader
--   Replay         internal/cdc/replay_plan.go, with the target relations of internal/cdc/applier.go:
--                  UnionFind and Lanes (replayTransactionComponentLanes), Relations (targetRelation,
--                  its fingerprint and key columns), Keys (replayChangeKeyForVersion in every plan
--                  version), Plan (buildReplayPlanForGenerationVersion; Admission decides which
--                  transactions run in parallel, Work computes works and digests); and the types,
--                  hashers and identifiers of internal/cdc/replay_claim.go: Claim and Hash
--   Replay/Tests   small epochs and plans, at which the theorems are applied
--   Cdc/Tests      small transactions and logs, at which the theorems are applied
--
-- State and effects. The writer is a record in state-passing style: the fields of Go's Writer and
-- the bytes of the files that it keeps, with the tail's contents at the last fsync beside the
-- contents now. What the file system answers during one call is a value (Io), so that theorems
-- speak of every failure. A crash keeps the synced bytes and some prefix of the bytes behind them.
-- The checksum is a parameter, of which only its 32-bit range is used, as are strconv.ParseUint and
-- the path of a finalized file. Each operation holds the writer's lock, so that calls do not
-- interleave.
--
-- The decoder takes parsed messages: pglogrepl's parser, whether a spill file can be created, the
-- file's writes and the clock are parameters.
--
-- A replay plan is computed without effects: its maps are association lists, the cache of relation
-- fingerprints is left out, a hasher is the bytes written to it, and SHA-256 is a parameter of which
-- nothing is assumed. OIDs of built-in types are PostgreSQL's.
--
-- Fuel: the scan's loop has fuel, one more than the file has bytes; every frame takes at least its
-- header, and the theorems on scans show that a log is read to its end. A find in the union-find
-- forest has as much fuel as the epoch has keys, which is enough since each key joins two trees at
-- most once and so makes a tree at most one edge deeper.
--
-- Not modelled: a rollback of a frame whose Truncate alone fails, seeks to the end of a reopened
-- tail that fail, file sizes from 2 ^ 63 on, progress reports, the parallel order of recovery's
-- workers, and the file system's directories and locks. Of internal/cdc the reader, when the pruner
-- runs and pruning without a catalog, the parsing of pgoutput messages, which is pglogrepl's, the
-- receiver's connection, the tables of replay claims, the execution of a plan and the applier's SQL
-- are not modelled, and the other packages are not, most of whose code runs queries and processes.
-- A call of prune is one step, during which no segment is added. The theorems on frames and
-- recovery speak of transactions whose changes are in memory; a spill is treated by itself.
pub mod Base
pub mod Cdc
pub mod Replay
