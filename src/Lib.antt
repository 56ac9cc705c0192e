-- ===== src/Lib.antt =====
-- grpc-dgram carries gRPC calls over channels that exchange whole messages. This library models the
-- protocol core of its TypeScript implementation, ts/src, and proves what makes that core correct.
--
-- The parts, and how they interact. A frame (ts/src/wire.ts) is one step of a call; a transport message
-- is an envelope of frames. Each direction of a call numbers its frames (TxSeq, ts/src/seq.ts) and the
-- other end checks the numbers (RxWindow). On a reliable channel a sender spends one message of credit of
-- the stream's window and one of the peer's connection window for each data frame (FlowSender and
-- acquireBoth, ts/src/util.ts); the receiver puts the frame into the stream's queue (FrameQueue), counts it
-- against the connection's window (PeerFlowRx), and grants credit back as the application consumes
-- (FlowReceiver, PeerFlowRx). Metadata values are checked and turned into octets at the edge
-- (ts/src/metadata.ts). The server (ts/src/server.ts) keeps a slot for each transport peer and in it a
-- container for each incarnation of the client. handle routes a frame to the live call that it belongs to
-- (ServerStream), to the tombstone of a finished one, or, if it opens a call that nothing remembers, to open,
-- which starts a handler. The replies it volunteers are limited (allowReply, sendReset). Settings are
-- resolved once (ts/src/limits.ts, ts/src/timing.ts).
--
-- The files.
--   Prelude, OrderedMap   shared names, Boolean tests, 32-bit arithmetic, integers; JavaScript's Map
--   Seq                   ts/src/seq.ts: next, undo, check, take_gap. Seq/Unwrapped is about runs against
--                         unbounded numbers, Seq/Strict about reliable channels, Seq/Laws about single steps
--   Flow                  ts/src/util.ts: Sender is FlowSender, Both is takeBoth and tryAcquireBoth, Acquire
--                         is acquireBoth, Alone is FlowSender.acquire, Receiver is FlowReceiver, Ledger is
--                         PeerFlowRx. Wakeups and Ledger/{Bounds, Credit, Evicted} hold their proofs;
--                         Channel puts both ends of one window together
--   Queue                 ts/src/util.ts: FrameQueue; Blocking is putBlocking, Order is about histories
--   Metadata              ts/src/metadata.ts: Base64, Values (the octets of a value), Validation, Join
--   Wire                  ts/src/wire.ts: Flags (frames and their kinds), Writer, Reader, Varint, Message
--                         (the field loop), Duration, Nested, MetadataCodec, Frames; Text is what the codec
--                         relies on of the platform, TwoByte one instance of that
--   Status                ts/src/status.ts, with frameStatus and setFrameError of ts/src/wire.ts; Thrown is
--                         about what is thrown and the status that it maps to
--   Compression           the end of ts/src/util.ts, with encodePayload and decodeMessage of ts/src/server.ts
--   Server                ts/src/server.ts: Tombs is PeerState's tombstones and Tombs/Watermark its high-water
--                         mark through time, with proofs in Tombs/{Bounds, Aging, Dedup}. Replies is
--                         allowReply, Resets is sendReset. Stream is ServerStream: Credit (the connection credit of its frames),
--                         Receive (handleRx, recv), Header (the frames about the call itself), Send (send and
--                         the terminal); Books, Life, Receive/Credited and the children of Send are proofs.
--                         Table is PeerSlot with its containers, Table/Call takes a step of a call where the
--                         table holds it, Admission is open, rejectOpen and finish, Dispatch is handle,
--                         Sweep is sweep, Shutdown is disconnectPeer and stop. Table/Counted and the
--                         children of Dispatch, Sweep and Shutdown are proofs
--   Config                ts/src/limits.ts and ts/src/timing.ts
-- A function has its source's name in snake case. The Examples modules run the code on concrete inputs.
--
-- How the code is modelled. A method is a function from a record to a record and a result. Numbers are the
-- native naturals; `>>> 0` is written `% 2 ^ 32`, and `&`, `|` and shifts are written as arithmetic, which
-- each file explains. Window sizes and credits are whole message counts. Texts are lists of UTF-16 code
-- units and byte arrays lists of numbers below 256. A parked promise is a name in the list of waiters, and
-- resolving the waiters empties the list. An asynchronous loop is a run over a list of moments: what the
-- loop finds each time the scheduler comes back to it. The list is any list, so every interleaving is one.
-- An exception is a value. The platform's text encoder and decoders are a parameter, with their round trip
-- on well-formed text as the hypothesis. A timeout is its exact number of nanoseconds, of either sign: the
-- code keeps a double of milliseconds, and its conversions at the edge of the codec are not modelled.
--
-- Fuel. A varint is written in at most 5 rounds below 2 ^ 32 and 10 below 2 ^ 64; it is read in at most 10,
-- which is the code's own bound. The field loop of a message has its input's length as fuel: each round
-- reads at least the tag's byte. The entry cap of the tombstones has their number: each round takes one
-- away. Other loops follow a list.
--
-- The server's state. A desk is one transport peer's slot with what the server shares among peers; other
-- peers' slots are not touched by a frame of this one. What the code reaches through references from a
-- stream (its container, the peer's ledger, the reply budget) is handed to the call's step as its host, and put
-- back after it. Where a method awaits, what it does before and after are two functions, and the second
-- is about any call. The adapter's answer to a frame is a parameter:
-- it takes the frame, refuses it for its size, or fails in another way, with or without having sent it. Handlers are not run: what they call on
-- their stream are the operations, in any order.
--
-- Not modelled: of ts/src/server.ts register, gracefulStop and what runs a handler; the sweeper's timer; the
-- client in ts/src/conn.ts; interceptors; statistics; the registry of compressors; the
-- transports, which are adapters of platform channels; numbers that are negative, fractional or NaN; the texts of
-- errors where they hold numbers; the Go implementation.
pub mod Prelude
pub mod OrderedMap
pub mod Seq
pub mod Flow
pub mod Queue
pub mod Metadata
pub mod Wire
pub mod Status
pub mod Compression
pub mod Server
pub mod Config
