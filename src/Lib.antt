-- ===== src/Lib.antt =====
-- The core of the Go server of mite, which lets a family support a user over a call: server/internal
-- with the statements of server/db/queries.
--
-- The program. A user asks for support (a support request); the family calls (`Call`), which makes a
-- ringing support session; the user accepts with a consent (`Accept`); the family resolves the call
-- with or without a guide (`Resolve`); a session whose guide comes to nothing, or is saved already,
-- is ended (`EndWithoutGuide`, `End`). Each of these is one HTTP request with a revision that it
-- expects and an idempotency key under which its answer is stored, and one transaction on
-- PostgreSQL. The events of a transaction are published after its commit. While a call lasts, both
-- sides get tokens for its LiveKit room (`CreateLiveKitToken`).
--
-- The files.
--   Prelude, Text        names of the library, equality tests, results, UTF-8 and white space
--   Domain/Value         server/internal/domain/value.go, revision.go
--   Domain/Errors        server/internal/domain/errors.go
--   Domain/Enums, Domain/Status
--                        server/internal/domain/status.go: the status types, and their tables
--   Domain/User          server/internal/domain/user.go
--   Domain/Support       server/internal/domain/support.go, support_session_rules.go
--   Domain/Idempotency   server/internal/domain/idempotency.go
--   Domain/Guide         server/internal/domain/guide.go
--   Domain/Event         server/internal/domain/event.go
--   Json, Service/Snapshot
--                        server/internal/service/support_session_snapshot.go
--   Repository           server/internal/repository/support_sessions.go and idempotency.go, with
--                        server/db/queries/support_sessions.sql and idempotency.sql (whose Go is
--                        server/db/generated): Sessions has the rows of requests and sessions, Keys
--                        those of idempotency records
--   LiveKit              server/internal/livekit
--   Domain/Artifact      server/internal/domain/artifact.go, with the rules of artifact_support.go
--   Domain/Request       the rules of support requests in server/internal/domain/artifact_support.go
--   Repository/Requests, Service/Request
--                        CreateSupportRequest, UpdateSupportRequestAcknowledgement and
--                        CancelSupportRequest of server/internal/service/artifact_support.go, with
--                        the statements of server/db/queries/artifact_support.sql: Create and Change
--                        have the use cases, Rows, Writes and Orderly are about the table of requests,
--                        and Reach runs any number of them among those of sessions
--   Repository/Leaves    rules that follow a transaction statement by statement
--   Repository/Deletions, Service/Deletion
--                        the deletion queue of server/internal/service/artifact_cleanup.go, with its
--                        worker (server/internal/worker/artifact_deletion.go), the methods of
--                        server/internal/repository/artifact_support.go that they call, and
--                        server/db/queries/artifact_deletion_tasks.sql; Queue and Recover say which tasks
--                        stay, Drained what the worker is to leave of a table, and Drain that it does
--   Websocket            server/internal/websocket/hub.go: Sound has the invariant of the sockets and
--                        Delivery shows that every action keeps it
--   Repository/Runs, Service/Run
--                        the runs of server/internal/service/guides.go with their statements in
--                        server/internal/repository/guides.go and server/db/queries/guides.sql: Rows
--                        and Inside say what becomes of the rows, Walk follows a run to its end, and
--                        Finish has the ends of a run with their stored answers
--   Service/Stored       `idempotent` of guides.go, for any work: Keeps says what it leaves, Begin and
--                        Retry what it answers to a request that is sent again
--   Domain/Companion, Repository/Companion, Service/Companion
--                        presence in server/internal/domain/companion.go, repository/companion.go and
--                        service/companion.go with server/db/queries/companion.sql; Presence says
--                        what a transaction makes of the presences and the notifications, and Beats,
--                        Pushed and Once are about the pushes
--   Repository/Generation, Service/Generation
--                        the jobs of server/internal/service/guide_worker.go and
--                        RetryGuideGenerationJob of guides.go, with their statements: Attempts has
--                        RunOnce and the retry, Rows says what a statement makes of a job, Works and
--                        Retry what a transaction does, History runs any number of them, Ends,
--                        Failure and Told say how an attempt ends and what is published then, and Once
--                        that it ends
--   Service/Image        the images of server/internal/service/guide_worker.go
--   Service/Idempotency  server/internal/service/idempotency.go
--   Service/Session      server/internal/service/support_sessions.go and end_support_session.go:
--                        Common and Held have the helpers, Call has Call, Pair has Accept and
--                        Resolve, End has EndWithoutGuide and End, Token has Get and CreateLiveKitToken; Rows has the
--                        abstract machine of requests and sessions, UseCases shows that the five
--                        use cases make its steps, and Reach runs any number of them
--   Tests                runs on small inputs
--
-- The correspondence. A Go function is the definition of the same name in snake case. A use case is
-- a function of the environment (`Env`: the clock, the drawn ids, SHA-256 over the canonical JSON of
-- a request, and which statements PostgreSQL refuses), of the state that it reads before its
-- transaction, of its arguments, and of the state when the transaction has its locks; it returns
-- what the caller gets, the new state and the events that are published. The row locks order the
-- transactions on a session, so interleaved requests are a sequence of use cases, each of which may
-- have read any earlier or later state before its transaction. A transaction is a function from the
-- state to a result and a state (`Tx`), and an error in it, or a refused COMMIT, undoes its writes.
--
-- What is abstracted.
--   * Errors are their codes: messages, causes and the log are dropped. An error without a code is
--     `failure`.
--   * A statement that is refused is refused each time that a use case runs it; a refused BEGIN has
--     the outcome of a refused COMMIT. Constraints of the schema other than the primary key of
--     `support_sessions`, `support_requests` and `user_presences` and the keys of the idempotency
--     records and of the notifications are part of what may be refused.
--   * A time is a number of nanoseconds, the zero time 0; that `timestamptz` rounds to microseconds
--     is not modelled. An `int64` that is compared with 1 is a natural number, 0 for all below 1; a
--     revision in a row is not bounded.
--   * A JSON document is a value of `Body`: a pair, a session, a request, a guide run, a job, an
--     error, or bytes that are none of them. That encoding/json reads back what it wrote is built
--     into this; what it makes of a document of another shape is written out.
--   * The goroutines of the hub are interleaved actions; the order in which `range` visits a map of
--     connections is that of a list, the latest first. Whether a write to an open socket succeeds is
--     part of the action, and a write to a closed one fails.
--   * The signature of a token (JSON, base64, HMAC-SHA256) is the argument `sign`.
--   * An `EXISTS` over a table runs over a list of ids, `ids`, that has the ids of all rows; a clock
--     that a use case reads again is an argument, `later`. The tables of artifacts, users and pairs
--     are read, and only the deletion queue writes one of them.
--   * The collation of ids, by which PostgreSQL orders requests or jobs of the same time, is an
--     argument. A push is part of the outcome, whatever becomes of it.
--   * The deletion queue has one worker, so its statements skip no locked row.
--   * A guide service draws its event ids with no error, so an id is an argument there. A dereference
--     of a nil status of a completed record, which its validation rules out, is `failure`.
--   * The actions on generation jobs are whole transactions, one after the other, since the rows are
--     locked. What `loadInput` and the generator return, and whether
--     the time of an attempt is over, are arguments of `run_once`.
--   * The two loops of `prepareGuideImage` run on fuel: 7 rounds, of which six encode, in the loop on
--     the quality and 9 in the loop on the size, which is enough for every image. Every other loop of
--     the modelled code runs over a list or a counter. A side of an image is a natural number.
--
-- Not modelled: reading support requests; the services of materials, of guides and their drafts,
-- the start and the pause of a run; the loading of a job's images and the generator; push
-- subscriptions, their delivery and the status that a family sees; the scheduling of artifact
-- clean-up; the HTTP handlers, storage, configuration and start-up; the clients.
pub mod Prelude
pub mod Text
pub mod Json
pub mod Domain
pub mod Repository
pub mod LiveKit
pub mod Websocket
pub mod Service
pub mod Tests
