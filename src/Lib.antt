-- ===== src/Lib.antt =====
-- Telegram session gateway: a verification library. The gateway (Go) stands between bot processes
-- and Telegram: it paces their calls so that Telegram's rate limits are kept, keeps the updates
-- that Telegram sends until a consumer acknowledges them, also over a restart, and sees to it
-- that a retried send is made once.
--
-- The parts, and where they are modelled:
-- - internal/rateguard/rateguard.go is RateGuard: Method (MethodKind), Bucket (Refill, TryTake,
--   NextAvailable, Pause), Guard (TryAcquire, WaitTime, Report429, ChatSendState, RestoreBackoff,
--   the paid lane). Bucket/Laws, Bucket/Pause and Guard/Laws, Guard/Blocks, Guard/Waits hold the
--   proofs.
-- - internal/store/queue.go is Store/Queue: the list in memory (PushAll, Pull, Ack, the prune by
--   age), with its tables in Queue/Table, and what the operations do to them in Queue/Disk.
--   Queue/Invariant, Queue/Delivery, Queue/Loaded and Queue/Restart hold the proofs.
-- - internal/rateguard/mt.go is RateGuard/MtGuard (TryAcquire, WaitTime, ReportFloodWait,
--   AdaptiveWait, ClearPeerBackoff), with the proofs in MtGuard/Admission, MtGuard/Peers and
--   MtGuard/Flood.
-- - internal/mtproto/sessions.go is Mtproto/Session: the supervisor and the admin operations in
--   Session itself, the consumers in Session/Consumers, the idempotency cache in Session/Cache,
--   pushUpdate, its channel, the replay and the pruning in Session/Feed. Session/Life with its
--   children, Session/Start, Feed/Belt and Feed/Numbers hold proofs.
-- - internal/store/mt.go is Store/Mt, and the tables bots and chat_backoff of
--   internal/store/gateway.go are Store/Gateway, with the proofs in their children.
-- - internal/botapi/typing.go is Botapi/Typing (the loops share their records with the manager,
--   so the records have addresses), with one round of a loop in Typing/Loop, the updates in
--   Typing/Updates, and proofs in Typing/Runs and Typing/Quiet. The helpers that read decoded
--   JSON are Botapi/Value.
-- - internal/botapi/proxy.go is Botapi/Proxy: Proxy/Forward (admitAndForward, the reply),
--   Proxy/Call (Call, resolveUsernameChat), Proxy/Verbatim (CallRawWithChat, forwardMultipart,
--   internalGetUpdates). A call takes the plane (session, keys, backoffs, typing, what the client
--   was asked for) to a plane. Proxy/Wait, Proxy/Settling, Proxy/Retry, Proxy/FormKeys,
--   Proxy/Pausing, Proxy/Owned and Proxy/Whole (Call from its first line on) hold the proofs;
--   they rest on those of RateGuard/Guard and Store/Idempotency.
-- - internal/botapi/session.go is Botapi/Session (the session), Botapi/Manager (Attach, Pause,
--   Resume, Drain, Delete, SetPush, RestoreAll) and Botapi/Poller (the rounds of the poller, over
--   Store/Queue), with proofs in Manager/Restored, Manager/Lives, Poller/Progress and
--   Poller/Restart.
-- - internal/botapi/app.go is Botapi/Routes as far as a request finds its bot and its call
--   (callRoute, splitBotTokenPath), with proofs in Routes/Paths and Routes/Owned.
-- - internal/health/health.go is Health: Storage (what degrades /readyz) and the boot tracker of
--   the safe mode, with proofs in Health/Order, Health/Reasons and Health/Boots. The order of a
--   range over a map is an argument, a function that returns the keys in some order.
-- - internal/lock/lock.go is Lock, with proofs in Lock/Format and Lock/Exclusion.
-- - the table idempotency_keys of internal/store/gateway.go and internal/store/mt.go is
--   Store/Idempotency (IdempotencyClaim, IdempotencyFinish, IdempotencyFail, IdempotencyCleanup),
--   with proofs in its children.
--
-- State is a record with the fields of the Go struct, and an operation is a function from the
-- state to the new state and the result, with the conditions and early returns of the source in
-- their order. A method that holds a mutex is one step. pushUpdate of
-- internal/mtproto/sessions.go holds it for its first part only, so it is two (stamp and route),
-- and push_update is a call that nothing comes between. What others do to a session while its
-- poller waits, that is the states they set and the updates they acknowledge, is an input of the
-- poller. Clock readings are arguments. What a Go map holds is an association list. A pointer to
-- a bucket in a map is the entry of the map, written back.
--
-- Numbers: int64 is an integer, with the wrap-around written out where the code adds (wrap64).
-- float64 is the interface Float64: the operations, and the facts on IEEE 754 arithmetic that the
-- proofs rely on, with the integers as an instance for the tests. SQLite is modelled by the
-- statements that the source has, as functions on lists of rows; whether the engine lets a
-- statement through is an argument. encoding/json, fmt and the box of internal/cryptoutil are
-- parameters.
--
-- All loops but one are recursion on a list: the loop of itoa64 counts down the 24 bytes of its
-- buffer, which no int64 fills. The wait for admission is over the list of its tries, of which
-- enough are shown to end it. The endless loop of supervise is a turn, and a run is a list of
-- turns and admin operations in any order. Connect takes time, so the turn that calls it ends
-- before it, and its outcome is an event of its own. A wait of Pull is over the list of events
-- that end it.
--
-- Not modelled: ParseFloodWait (a report takes its result), message formatting, the admin
-- handlers, the Telegram clients, logging, metrics, tracing, the files of the backups,
-- encryption, and start-up.
pub mod Prelude
pub mod Float64
pub mod Botapi
pub mod Health
pub mod Lock
pub mod Mtproto
pub mod RateGuard
pub mod Store
pub mod Tests
