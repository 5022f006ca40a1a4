-- ===== src/Lib.antt =====
-- A verification library of the key management system of the Trans-Euro-OGS laboratory: the
-- delivery of key material by identifiers to pairs of applications (SAEs), a master and a slave.
--
-- The program's parts and their models:
--
--   src/internal/core/key.go             Core: ids (Core/Id), states, associations, keys and their
--                                        validation (Core/Key), the batch check (Core/Batch), the
--                                        errors and outcomes of calls (Core/Errors)
--   src/internal/storage/memory.go       Storage: the ephemeral repository
--   src/internal/relay/engine.go         Relay: the records and the jobs of the outbox; their
--                                        withdrawal (Relay/Voiding), the operations of the
--                                        applications (Relay/Serve), keys from a source
--                                        (Relay/Sources), transfers (Relay/Accept), the peers'
--                                        results (Relay/Acks) and withdrawals
--                                        (Relay/Withdrawals), the worker (Relay/Outbox), what
--                                        only reads (Relay/Views)
--   src/internal/etsi020/models.go       Etsi020: the messages between systems, their validation
--                                        (Etsi020/Validate) and base64 (Etsi020/Base64)
--   src/internal/etsi020/http.go         the server between the systems (Etsi020/Http) and the check
--                                        of a JSON text against a type (Etsi020/Shapes)
--   src/internal/upstream/config.go      Upstream: the profile of the segmented service
--   src/internal/ingest/repository.go    Ingest: the persistent repository of a segmented service:
--                                        its state, steps that fail (Ingest/Monad), the stages of
--                                        a request (Ingest/Serve/Request), the operations of a
--                                        master (Ingest/Serve/Master) and of a slave
--                                        (Ingest/Serve/Slave), the rest (Ingest/Serve/Views), the
--                                        opening and its recovery (Ingest/Recovery), runs over
--                                        restarts (Ingest/Trace)
--   src/internal/etsi014                 Etsi014: the messages (Etsi014/Messages), the scan of a
--                                        JSON text (Etsi014/Json), the reading of bodies and
--                                        queries (Etsi014/Reading, Etsi014/Requests), the server
--                                        (Etsi014/Server, Etsi014/Handler) and the client
--                                        (Etsi014/Client)
--   src/internal/config/config.go        Settings: the configuration and its validation
--   src/internal/security/identity.go    Security: the application of a connection
--   src/internal/eaglelab/service.go,
--   src/internal/synthetic/source.go     Lab: a repository that opens later, and a source of keys
--   src/internal/peering/config.go       Peering: the policy, the paths of a mode, the validation
--                                        (Peering/Validate)
--
-- The engine serves the same operations as the ephemeral repository, on records that it keeps in
-- a journal. A transaction changes a copy of the ledger; the copy replaces the ledger when the
-- transaction returns no error and the journal was saved, and a failed save poisons the engine
-- (Relay.Serve.change, with the answer of the journal as an argument). The worker's `Step` lets
-- go of the lock around its calls of the peers, so each of its transactions is an operation of
-- its own, and Relay.Trace runs all operations in any order. The digest of a transfer is a hash
-- that the model takes as a function.
--
-- The persistent repository changes its state in place and keeps what it changed when it fails, so
-- its operations are steps that end with a state and a result. The state on the disk is a field
-- of its own: a save puts the book there, fails before that or fails after it. The answers of the
-- segmented service are arguments, as functions of what is asked. A process that stops in the
-- middle of an operation is a save that is lost and a restart.
--
-- The server is written against the interface of the repositories (Core/Repository), which the
-- memory repository, the engine and the persistent repository fill (their modules Interface). The
-- interface comes with what a client may count on (Once), and each of the three keeps it. A request
-- is what the libraries make of it: the URIs of the verified certificate, the segments of the path,
-- the parsed query, the body and what the JSON decoder gives for it. The multiplexer of the standard
-- library redirects a path that is not in its canonical form before it looks for a handler, with a
-- status that is a parameter (`redirect_status`); the request target `*` is left out. A request for
-- new keys calls the repository twice, and each call locks for itself: `handle` goes up to and with
-- the first call, `finish` makes the second (Etsi014/Handler), and Etsi014/Service runs these steps
-- of all requests in any order. `handle_whole` has nothing between the two.
--
-- Conventions. A Go string is its list of bytes (Text), a time a number of nanoseconds with 0 for
-- the zero time, a Go map an association list (Common/Dict) whose order stands for the
-- unspecified order of an iteration, a pointer into a map an update in place (adjust). A nil
-- dereference is the outcome `panic`. A mutex makes an operation one step. The wiping of a buffer
-- by `clear` leaves the empty buffer that the code then stores. An operation takes the clock
-- reading `now` and the results of `NewID` that it draws as arguments, so what is proved holds for
-- every clock and every random source. Where the code draws again until a token is unused, the
-- model takes the draws as a list, and more distinct draws than reservations are enough.
--
-- The base64 of the standard library (Etsi020/Base64) and the canonical form of a path, which its
-- multiplexer tests (`canonical` in Etsi014/Handler), are written out as the library has them; they
-- translate no code of the repository.
--
-- Not modelled: the journal's files and encryption (src/internal/durable), opening an engine
-- from them, HTTP and TLS, the client between the systems and the reading of a body by its type
-- (src/internal/etsi020/http.go: NewClient, request, Probe, Send, Ack, Void, decode), the
-- reading of configuration files and the commands. The binding of the persistent repository's
-- state to its configuration is a hash that `Open` compares; the model opens a state that
-- passed.
pub mod Common
pub mod Core
pub mod Storage
pub mod Peering
pub mod Relay
pub mod Upstream
pub mod Ingest
pub mod Settings
pub mod Security
pub mod Lab
pub mod Etsi014
pub mod Etsi020
