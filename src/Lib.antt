-- ===== src/Lib.antt =====
-- rdma-demo: an S3-like object service over RDMA messages. A client shares a region of memory with a
-- server and moves objects by offset in that region; small control messages in JSON go over the same
-- ordered channel, and payloads that the server sends are limited by credits, which the client grants
-- by its hello and gives back by an ack for each payload that it released.
--
-- The parts, and the files that model them:
--   Base, Base/*      numbers, 64-bit words, texts as lists of bytes, maps as association lists
--   InmemStore/*      internal/inmems3/store/store.go: MemoryStore with a byte limit and eviction.
--                     State, Evict and Methods hold the definitions (PutObject is put_object, and so
--                     on); Invariant says what is valid; the other files hold lemmas and theorems
--   RdmaStore         internal/s3rdmaserver/store/store.go: MemoryStore of objects loaded at startup
--   ZcopyProto        pkg/rdma/zcopyproto/protocol.go: Message, Encode, Decode
--   Transport         pkg/rdma/conn.go: frames and borrowed messages
--   ZcopyServer/*     internal/s3rdmaserver/zcopy/service.go: Conn is zcopyConn, Handlers are
--                     handlePut and handleGet, Session is serveConn; Interleaving has the step
--                     relation of the loop, the GET goroutines and the peer
--   RdmaClient/*      pkg/rdma/client/client.go: Config has the checks of sizes, State the receive loop
--                     and the pending requests, Calls and Results the calls; Acks has the step relation
--   EndToEnd          a client's request as the server reads it
--   RdmaStore/*       Runs has the specification of the store as a function, WellFormed its invariant and
--                     Listing that of ListObjects; Loader is internal/s3rdmaserver/store/loader.go, with
--                     LoadRoot, and Imported, FileCounts and LoadCounts hold what it leaves
--   RdmaApi/*         internal/s3rdmaserver/s3api/handler.go: Paths is SplitBucketAndKey, Uploads
--                     consumeBody, Replies the documents, Handler ServeHTTP; its interface Store is a
--                     record, with laws in Requests that RdmaStore fulfils in Stores
--   Payloads/*        internal/inmems3/payload/loader.go: Files is the file system, Loader the loader,
--                     Replacement what its replacing of a bucket leaves in the in-memory store
--   Control, Control/* internal/inmems3/control/server.go
--   InmemZcopy/*      internal/inmems3/zcopy/service.go: Conn, Handlers and Session as in ZcopyServer;
--                     Agreement and Rounds compare the two services, Closing and Draining have the step
--                     relation of the goroutines of a closed connection
--   VerbsConn/*       pkg/rdma/verbs_linux_cgo.go: Device has the receive slots of the C part, Notify
--                     parseWriteNotifyFrame and sharedMemoryOffset, Recv RecvMessage and what it calls
--                     (and Release of pkg/rdma/conn.go), Send SendMessage, Timeouts the timeouts, Open the
--                     attempts of Open; Slots, Receiving and Messages hold lemmas and theorems
--   VerbsListener, VerbsListener/*  the listener of the same file: accept workers, AcceptMessage, Close
--   Ingest            internal/inmems3/ingest/put.go: ConsumeReader and ResultForBytes
--   S3Api/*           internal/inmems3/s3api/handler.go: Routing is SplitBucketAndKey, Handler is ServeHTTP
--   Verbs             pkg/rdma/verbs.go: normalize
--   Examples/*        concrete inputs
--
-- A method under a mutex is one step. State is passed explicitly: an operation takes the state last and
-- returns the new one. An int is an integer with 64 bits, whose sums and differences wrap around
-- (add64, sub64); a Go string or byte slice is a list of numbers; a Go map is an association list, whose
-- order stands for the order in which Go happens to range over it. No loop needs fuel: each is
-- structural over a list, or one round of it is a function and its repetition a step relation, or it runs
-- over what happens in its rounds, as the polls of RecvBorrowedMessage and the attempts of Open, and its
-- result says whether it has returned after them.
--
-- Not modelled: the calls of the RDMA verbs library (arguments say what they return), the
-- network, logging, lengths of time (a receive or send that times out is one that fails, as the argument
-- `delivers`, the state of the inbox or a poll says), the file system, MD5 and JSON (arguments), the XML
-- encoding, the HTTP servers' I/O, the generated gRPC code, the applications and commands.
mod Base
pub mod InmemStore
pub mod Ingest
pub mod Payloads
pub mod Control
pub mod S3Api
pub mod RdmaApi
pub mod Verbs
pub mod VerbsConn
pub mod VerbsListener
pub mod RdmaStore
pub mod ZcopyProto
pub mod Transport
pub mod ZcopyServer
pub mod InmemZcopy
pub mod RdmaClient
pub mod EndToEnd
mod Examples
