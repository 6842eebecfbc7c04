-- ===== src/Lib.antt =====
-- live-transcript-server: a Go server that receives live transcripts from workers, stores them
-- in SQLite, and fans them out to WebSocket clients, one hub for each channel.
--
-- The parts and how they interact. A worker posts to a handler of internal/server; the handler
-- calls internal/store, then broadcasts to the channel's hub of internal/ws, and, where an
-- admin page shows the change, bumps a counter and wakes the long polls through
-- internal/notify.
--
-- Prelude: integers, tests, lists and sorting, for all parts. A Go int is a ℤ; additions that
-- could leave 64 bits wrap (succ64, pred64).
-- Model: internal/model/model.go, one record for each type.
-- Store: internal/store. Store/Sql has the five tables as lists of rows in insertion order, and
-- Sql, a call of the package: from the tables and a list of faults to a result, the tables and
-- the faults that are left. Each statement takes one fault, `true` for a statement that fails;
-- transaction puts the tables back after an error. Store/Transcripts, Streams, Incoming and
-- Worker have one function for each method of transcripts.go, streams.go, incoming.go and
-- worker.go, under the method's name. ORDER BY is an insertion sort on the rows in insertion
-- order. The other files of Store prove: Outcome is how statements, sequences and transactions
-- end; Append, Newest, Accept and Gapless are about InsertNextLine, Replace about
-- ReplaceTranscript, Media about the media columns, Held about the files of
-- GetLastAvailableMediaFiles, Keys and Calls about primary keys, Queue and Refines about the
-- queue of URLs as a map, Cascade, Upsert and Live about streams.
-- Ws: internal/ws. Events has the messages; Hub has Client, Hub and their methods, a *Client
-- being a number and the hub holding the state of all clients that were ever added; Pumps has
-- ReadLoop and writePump by frame. Wf, Delete and Accounting are about the connection slots
-- under all orders of calls, Offers and Fanout about Broadcast and Remove.
-- Notify: internal/notify/notify.go. A signal channel is its number, closed when it is below
-- the current one. Wait is a machine with a state for each place in its loop; Wakeup has the
-- steps of the other goroutines.
-- Storage/Keys: internal/storage/keys.go.
-- Media: internal/media/merge.go. Merge is MergeRawAudio, with an event for each step of its
-- producer, its downloads and its writer, in any order; Moves and Invariant are what the events
-- keep, Ordered is about the merged file and the scratch folder, Returns about the end of a
-- merge.
-- Server: internal/server. App is what the calls of one channel share (app.go); Lifecycle is
-- lifecycle.go, function by function; Events is collectWorkerEvents of handlers_events.go;
-- Worker and Upload are handlers_worker.go, handler by handler; Websocket is websocket.go;
-- Maintenance is maintenance.go; Ids is isValidID of routes.go. Kept, Retention, Activation,
-- Silence and Removal are about Lifecycle, Signals about Events, Lines about lineHandler, Syncs
-- about syncHandler, Commits about mediaHandler, Slots about wsHandler, Pruning about
-- pruneExpiredStreams, Prefixes about storage keys of valid IDs. Vods is the registry of
-- vod.go, a *vodJob being a number, and Builds is about claim. Vod and VodBuild are the rest of
-- vod.go: whether a stream can have a VOD, what is reported of it, the two requests and the
-- calls of a build; VodTargets and VodStarts are about the start of a build, BuildEnds about
-- its end. Polls is the rest of handlers_events.go, the two long polls over Wait; Wakes and
-- Answers are about a poll that is woken, Outcomes about what is answered for each outcome.
-- Init has the rows that Init writes, Sink is QueueIncomingStream, and Delivery goes from it to
-- the answer of a parked poll. Routes is the table of routes.go and its middlewares; Guards is
-- about the keys that a request needs, Dispatch about the route that is taken. Admin and Edit
-- are handlers_admin.go, handler by handler; Announced and Edits are about the edit of a
-- stream, Deletions about its deletion. Files and Clips are handlers_public.go; Confined is
-- about the files that are served, ClipRanges, with Store/Range, about clips.
--
-- Bounds. A client's buffer has 256 messages, as in Add. The only fuel is the count of digits
-- that format_int writes: 20, and an int64 has at most 19. All other loops are recursions on
-- lists of rows, clients, lines or frames, or sequences of steps.
--
-- Not modelled: metrics and logs; the SQLite driver and its connection string; time, which is
-- an argument; media conversion, the storage back ends, Discord and the archive client; the
-- configuration, the start of the server and the command-line tools. What a request decodes to
-- and what conversion and uploads answer are arguments of the handlers, whose answer is the
-- status. Whether a stream's media exists in the storage is a parameter (Config.probe).
-- TrySend, Remove with the closing that follows its mutex, the two loops of Broadcast up to the
-- release of the mutex, and each SQL call are one step, and so is a check of a long poll, with
-- all of its queries.
pub mod Prelude
pub mod Model
pub mod Store
pub mod Ws
pub mod Notify
pub mod Storage
pub mod Media
pub mod Server
