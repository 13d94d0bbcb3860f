-- ===== src/Lib.antt =====
-- A model of the core of the Codex runtime gateway (gateway/internal).
--
-- The gateway serves chats and tasks over gRPC and drives a Codex app server. Its chat runtime
-- keeps all that it knows of chats in one in-memory store, gateway/internal/chatstate: the runs
-- that are active, the events of each run, buffered so that a client that reconnects can replay
-- them, the subscribers that follow a run live, the pending requests that wait for an answer of
-- the user, and the idempotency keys that make a retried request safe. The text that clients see
-- passes through gateway/internal/redact, which replaces registered sensitive values by a marker,
-- also where a value arrives cut over several chunks of a stream. Tasks, the older interface to
-- the app server, keep an event log of their own (gateway/internal/tasks). Calls to the app server
-- and its own requests pass through the dispatcher of gateway/internal/appserver, which gives each
-- call its one result. What the app server asks of the user waits in the manager of
-- gateway/internal/pending, whose checks decide which answers are passed on. A client follows a chat
-- through a stream of gateway/internal/chatruntime, which joins the replay of the store with the
-- events that are published to its subscription. For workflows gateway/internal/workflowruntime
-- starts app servers of their own, one for a session group, and closes them.
--
-- Which file models what:
--   Base            numbers, tests, lists, texts, decimal digits and association lists, shared by all
--   Domain          gateway/internal/domain: errors.go, enums.go, events.go; Chats the status and events
--                   of a chat, Responses the answers of a user, of commands.go
--   Chatstate       gateway/internal/chatstate
--     Types         types.go, with the source's records and enumerations
--     Keys          store.go: keys of the maps, validation of scopes, safeLabel
--     Failures      store.go: the error constructors at its end
--     Store         store.go: Store, NewStore, normalizeLimits, cleanupLocked, the counts
--     Channels      store.go: Subscribe, publishEventLocked, closeSubscribersLocked
--     Runs          store.go: StartRun to ActiveRun
--     Pending       store.go: RegisterPending to ResolvePending
--     Replay        store.go: AppendEvent, Replay, enforceReplayLimitsLocked, the clones
--     Idempotency   store.go: ReserveIdempotency to RecordDiagnostic
--     Steps         every operation as a step, histories as lists of steps, and the scheme by
--                   which an invariant of the pieces is one of all histories
--     Capacity, Buffers, Uniqueness, Keys.Injective
--                   the theorems on the operations, by subject
--     Scenarios     concrete histories and the theorems applied to them
--
--   Redact          gateway/internal/redact
--     Strings       what it uses of Go's packages strings and sort
--     Registry      registry.go: Registry, Add, splitSensitiveValue, redactSegmentsLongestFirst
--     Patterns      redactor.go: redactGenericSecrets, redactFreeformPaths and what they call
--     Stream        stream.go: Stream with Write, Flush and what they call, and of redactor.go the
--                   Redactor with RedactString, SensitiveSegments, LongestSensitiveSegmentBytes
--     Splitting, Covering
--                   theorems on the segments of values and on the registry
--     Absence, Boundaries, Windows, Transparency, Carry
--                   theorems on what a stream publishes and what it holds back
--     Scenarios     a registry and a stream with one secret
--
--   Tasks           gateway/internal/tasks
--     Events        stream.go: the event log of a task, replayMessagesLocked, appendEventLocked,
--                   enforceReplayLimitsLocked
--     Subscribers   stream.go: taskSubscriber, and the receive of taskStream.Next
--     Logs, Histories, Cursors, Delivery
--                   what the log keeps, what a cursor is answered, what a subscriber gets
--     Scenarios     a task with a small log, and a subscriber
--
--   Appserver       gateway/internal/appserver
--     Rpc           jsonrpc.go and ids.go: messages, ids and what is read from documents
--     Dispatcher    dispatcher.go: Dispatcher, newPendingCall, removePending, closeWithError
--     Responses     dispatcher.go: handleResponse, confirmProvisionalID, recordProvisionalID
--     Requests      dispatcher.go: handleServerRequest, handleNotification, handleMessage, respond,
--                   writeMessageContext, readLoop
--     Calls         dispatcher.go: Call, SendRequest, Notify
--     Steps         what goroutines do to a dispatcher, as steps in any order
--     Accounts, Settling, Conservation
--                   where the one result of each call stands
--     Answers, Bindings, Lifecycles
--                   answers to the app server, ids announced for a call, the end of reading
--     Scenarios     a call whose turn is announced
--
--   Pending         gateway/internal/pending
--     Records       types.go: Record, ids, types of requests, RequestIDKey
--     Manager       types.go: Manager with Add, MarkResolved, Active and the lookups
--     Indexes, Histories, Lookups
--                   what the indexes list, in any history, and what is found by them
--     Responses     response.go: ResponseMatchesType, validatePermissionsResponse,
--                   mergePermissionGrant; appserver/mapping.go: the payload of the answer
--     Inputs        response.go: validateToolUserInputResponse
--     Grants        what the payload holds, told by the grants alone
--     Merges, Checks, Secrets
--                   what an answer is that passes the checks
--     Scenarios, Samples
--                   two requests with one id, and answers to two requests
--
--   Chatruntime     gateway/internal/chatruntime
--     Messages      stream.go: messages, notices and the status; service.go: cursors of events
--     Streams       stream.go: chatEventStream with Next and Close
--     Starts        stream.go, service.go, errors.go: the checks before a stream is opened
--     Opening       stream.go: StreamChatEvents
--     Orders, Deliveries, Positions, Refusals
--                   what a client is given, where a stream begins, what a refusal leaves
--     Scenarios     streams over the histories of the chat store
--
--   Workflowruntime gateway/internal/workflowruntime
--     Sessions      chatruntime/service.go: RegisterSession, UnregisterSession; config/types.go:
--                   SessionGroup
--     Manager       manager.go: Manager with EnsureWorkflowRuntime, CloseWorkflowRuntime, Close
--     Registrations, Accounts, Histories, Closings
--                   which supervisors run and which sessions there are, in any history
--     Scenarios     launches in two epochs, a refused one, and the close
--
-- How the state and the operations correspond to the code. The store is a record passed along;
-- an operation takes it last and returns it first, with the result that the method returns. A
-- method holds the store's mutex from its first access to its end, so that an interleaving of
-- callers is a sequence of whole operations: a list of calls. s.now() is an argument for each
-- reading that a method makes, so a theorem holds for any clock, also one that goes back. Times
-- are nanoseconds since the Unix epoch as natural numbers, and UnixMilli divides them. A Go map
-- is an association list with one entry for each key; the loops over maps treat each entry by
-- itself, so their order does not matter. A Go channel with a buffer is a record of its status,
-- capacity and queue in a heap that is indexed by subscriber id. Where a Go function returns a
-- value and an error, both are kept if the code returns both.
--
-- The dispatcher is locked for single sections, so its histories are made of smaller steps: the
-- section that begins a call, the write, the section that gives it up, and so on, each of them a
-- function that the whole operation is composed of. A result channel has room for the one result that
-- the holder of its call sends, so a send belongs to the section before it; the heap of these channels
-- keeps what was ever sent to each. The reading goroutine handles one message after the other; what a
-- wait on a channel, a write or a context ends with is an argument. Where the source picks a call from
-- a map in any order, the model takes the order of its list, and the theorem is about every list. A
-- record of the pending manager is named by its id, which stands for the pointer to it. An event
-- stream is read from the channel of its subscription, and the store that it was opened on is passed
-- along as in the chat store.
--
-- The manager of workflows holds its mutex for whole operations, too. It is modelled beside the sessions
-- of the chat runtime, which it registers, and with two lists of the supervisors that were started and
-- closed; a supervisor is a number that stands for the pointer to it. What the file system, the start of
-- a process and the close of a supervisor answer is an argument of each call. Of several errors of Close
-- the manager returns that of the first group in the order of its list.
--
-- Bounds. Event and subscriber ids are uint64 and wrap at 2^64; theorems on the order of events
-- are about histories of fewer than 2^64 calls. The byte count of a buffer is an int64 in the
-- source, and here the number modulo 2^64 that it is; that it never wraps is proved for limits and
-- sizes that fit. Limits, lifetimes and event sizes that a caller gives may be negative, as in the source. Ids of calls and of pending requests are uint64 that are counted up from
-- their first value, and theorems on them are about histories that are too short to wrap; the digits of
-- a number are written into twenty bytes, which are enough for a uint64. Loops are structural
-- recursion but for three, which take fuel: the digits take the bytes that are free; split_from takes
-- the length of the value, since each segment removes a byte at least; and publish_end_from takes the
-- number of intervals, since each pass that moves the point leaves one interval fewer beyond it.
--
-- Not modelled. The text of the epoch (fmt.Sprintf) is a parameter. What the packages regexp
-- and net/url match and parse in RedactString, and redactSensitiveJSONScalars of json.go, are parameters.
-- The payload of a task event is a type parameter, and the size of its JSON encoding a function.
-- The mutex and the goroutines that call the store are represented by the order of calls only. Of
-- the app server's protocol, what encoding/json finds in a document and how bytes.TrimSpace trims an
-- id are parameters, with the law that the id of a call is left as it is; framing of lines and
-- encoding come with their outcomes. What encoding/json and encoding/base64 make of a cursor are
-- parameters without laws. The values of JSON in a grant are a parameter, with what a type switch tells
-- of them. The caps of a task's log are read once, where the source reads them from the same
-- configuration for each event. Answers to approvals and elicitations, the building of pending requests, the processes of
-- the app server, the service of chatruntime beyond its streams, the rest of tasks, config,
-- contextpack, grpcapi and workflowstorage, the generated protobuf code and the SDK
-- are outside this development.
pub mod Base
pub mod Appserver
pub mod Domain
pub mod Pending
pub mod Chatstate
pub mod Chatruntime
pub mod Redact
pub mod Tasks
pub mod Workflowruntime
