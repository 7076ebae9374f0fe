-- ===== src/Lib.antt =====
-- The verification library of Kronos: the core of packages/core/src.
--
-- The program is a framework for event-sourced services. Its parts, and how they meet:
--
-- * Events are appended to a log under a condition on what the writer has read (a dynamic consistency
--   boundary). Messages.antt has the tags, names and event messages of messaging/tag.ts and
--   messaging/messages.ts, Messages/Names.antt and Messages/Metadata.antt the helpers of the latter on
--   names and metadata; Query.antt the queries of event-sourcing/dcb-query.ts with the matcher of
--   event-sourcing/in-memory.ts; EventStore.antt the log of event-sourcing/in-memory.ts with
--   `source`, `append` and `appendEvents` and, in EventStore/Reading.antt, `open`, over the conditions of
--   append-condition.ts, sourcing-condition.ts and consistency-marker.ts beside it.
-- * A unit of work (UnitOfWork.antt, unit-of-work/unit-of-work.ts) runs one task through its phases.
--   In the phase before the commit it flushes the events that the task appended, under the condition
--   of what the task read: EventStore/Flush.antt, unit-of-work/event-flush.ts.
-- * An event processor reads the log through a stream and keeps a tracking token for each of its
--   segments: Token.antt, event-processing/tracking-token.ts, with the persisted form in
--   Token/Codec.antt. Segment.antt, event-processing/segment.ts, is the tree of segments that shares
--   the sequences out to processors by their hash. The tokens stand in a token store, where nodes
--   claim segments for a time: TokenStore.antt, event-processing/token-store.ts.
-- * A running processor polls the log for each segment that it holds: Processor.antt has the delivery
--   of a batch of event-processing/running-processor.ts, Processor/Worker.antt and Processor/Poll.antt
--   the worker of a segment with its polls, renewals and stop, and Processor/Reset.antt `resetTokens`.
--   The worker's stream is taken as the accepted events of the log from its cursor on: that the stream
--   that workers share, event-processing/shared-stream.ts, hands them out so is an assumption.
--   EventStore/Stream.antt shows it of the streams of event-sourcing/in-memory.ts alone. A batch, with
--   its token, is taken as one transaction: where its unit of work throws, nothing of it stays. A reset
--   of the tokens is shown with a token store that knows no transaction.
-- * An event that a handler fails on goes to a dead letter queue, with the later events of its
--   sequence behind it: DeadLetterQueue.antt with DeadLetterQueue/Process.antt,
--   event-processing/dead-letter-queue.ts. DeadLettering.antt, event-processing/dead-lettering.ts, is
--   the delivery that parks it there.
-- * A state is folded from its events: Repository.antt has `load` of event-sourcing/repository.ts over the
--   log, with the cache of event-sourcing/in-memory-snapshotting-event-store.ts and the policies of
--   event-sourcing/snapshot.ts; Repository/Fitness.antt is event-sourcing/structural-fitness.ts. An
--   identifier is a text, the write of a snapshot is done at once or fails, and the values of a state
--   are those of JSON with `undefined` and bigints.
-- * The query of a state is derived from its tags and from what its evolvers fold: StateQuery.antt,
--   event-sourcing/state.ts, where a descriptor counts for its name and its tag keys.
-- * A bus admits requests up to a limit: Admission.antt, messaging-reliability.ts.
--
-- Names are the source's, in lower case with underscores; paths in the files start at
-- packages/core/src or are those of files beside the one named. State that the source closes over
-- is a record that each operation takes and gives back; a call that may throw returns an `Outcome`
-- (Outcome.antt), with one constructor of `Failure` for each error; the clock's reading is an
-- argument. Positions and counts are natural numbers, markers are integers, and the 32-bit operators
-- on segments and hashes are written out on 32-bit patterns. Texts are lists of UTF-16 code units
-- (Common/Text.antt), and a `Map` is a list of entries in insertion order (Common/Map.antt).
--
-- The bounds: `segmentsOf` walks on fuel 32, and a segment is not split once its mask has reached
-- 2^30, so that the fuel does not run out. The loops of a unit of work run on fuel, since an action
-- may register more actions, itself too: what an action does is a parameter, a function of all that
-- has run so far. Where what each run registers weighs less than the action, fuel above the weights
-- is enough; an action that registers itself for its own phase on every run never comes to an end.
--
-- Not modelled: the callbacks that wake up streams; the two read-only listings of the token store;
-- what runs between the awaits of a drain of the dead letter queue, and the inside of a replay's unit
-- of work, of which only the result counts; the clock and the state cache of a unit of work, and
-- actions of it that never settle; the timers and the observer of messaging-reliability.ts; of running processors, the stream that
-- workers share, the rounds that claim segments, sequences that run side by side, and the splitting and merging of segments that are in
-- use; the construction of a state with its checks at boot, and what a handler's context does around
-- a load or an append; the flattening of identifiers that are no texts; reprocessing and backoff; the
-- buses, scheduling and upcasting, and all adapters to servers and databases.
pub mod Common
pub mod Outcome
pub mod Messages
pub mod Segment
pub mod Token
pub mod TokenStore
pub mod Query
pub mod EventStore
pub mod DeadLetterQueue
pub mod UnitOfWork
pub mod Processor
pub mod DeadLettering
pub mod Repository
pub mod StateQuery
pub mod Admission
