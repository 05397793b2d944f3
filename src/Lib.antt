-- ===== src/Lib.antt =====
-- A verification library for bs-notify-hub, a notification service: tenants and users send
-- notifications over HTTP and gRPC, they are stored in PostgreSQL, unread counts are cached in
-- Redis, and connected users are told over server-sent events (SSE).
--
-- The parts of the program and their models:
--   pkg/pool                        Pool.antt and the modules below it: the groups of connections by
--                                   tenant, user and connection id; the channels of the connections
--                                   (HubSSEConnection of internal/service/hub.go) are Pool/Channel.
--   internal/dispatch               Dispatch.antt: the message, the bounded queue of the local broker,
--                                   the Redis broker as what its subscription delivers (Cluster), and
--                                   the dispatcher that writes a message to the channels.
--   internal/service/hub.go         Hub.antt: the connections of the subscribers. Hub/Locks takes the
--                                   calls of all goroutines one lock at a time, in any order;
--                                   Hub/Stream is the loop of Subscribe for one connection.
--   pkg/session                     Session.antt
--   pkg/jwtutil                     Token.antt: which tokens are accepted.
--   internal/constant, pkg/redis    Constant.antt: kinds, statuses and the Redis keys.
--   pkg/response, pkg/httpcode      Response.antt
--   internal/model, internal/dto    Model.antt, Dto.antt, and beside the services that use them.
--   internal/repository             Repository.antt: one module for each file; record.go has a second
--                                   one for the inbox queries.
--   internal/logic                  Logic.antt: unread counts and pushes.
--   internal/service                Service.antt: sending, reading and deleting, inboxes; Service/Tasks
--                                   runs the goroutines that they start. Of the same package, ticket.go
--                                   is Ticket.antt, grpc.go is Grpc.antt, internal.go is Dashboard.antt.
--   internal/tasks                  Tasks.antt: the cleanup of expired notifications, and in Tasks/Daily
--                                   the loop that runs it once a day.
--   internal/middleware             Middleware.antt: what each middleware lets through, and with which
--                                   context.
--   internal/handler                Handler.antt: one module for each handler, in Handler/Valid the
--                                   checks of the requests by their tags, and in Handler/Routes
--                                   the routes of /v1 of main.go behind the authentication.
--   internal/conf                   Conf.antt: loading the configuration once.
--   main.go                         Console.antt: the pages of the console and who may see them.
--
-- A request enters through Middleware, which takes the tenant from its token or session, a handler of
-- Handler or Grpc calls a service of Service, which works through Logic and Repository on a World, and
-- the messages for connected users go through the queue of Dispatch to the channels of Pool, which the
-- loops of Hub/Stream empty.
--
-- World.antt is what the services work on: three tables as lists of rows, Redis as two finite maps,
-- the queue of the dispatcher, and the goroutines that were started. An operation is a function from a
-- world to a result and a world. `Env` holds what is outside the program: the clock, the UUID library,
-- gorm's conversion of columns, json.Marshal, the configuration, the order in which PostgreSQL gives
-- rows that tie, and the oracle `fails`, which says of each call of the database or of Redis, by its
-- number, whether it fails. A call that fails changes nothing; a transaction whose body or commit
-- fails takes the tables back, but for that of the cleanup, whose repositories write beside it. The
-- theorems hold for every oracle unless they say otherwise.
--
-- A Go map is an association list with distinct keys (Prelude/Map), and the order in which it is
-- walked is the list's. A pointer to a group is an address into a heap (Pool/Manager), so that a
-- caller can hold a group that the map has dropped. A run of Hub/Locks takes one lock at a time: a
-- call that needs several waits between them, as Register does between its group's lookup and its own
-- entry there. Numbers are natural numbers or the integers of Prelude/Int; a duration in nanoseconds
-- wraps to 64 bits as Go's does. The loops of the modelled code run over lists, but for that of
-- RunOnce, which runs on fuel: one round more than there are records, which is enough because every
-- round that goes on removes a record. Whether the context of RunOnce is cancelled is an oracle on the
-- number of the round.
--
-- What the libraries do is a parameter where the code uses its result: golang-jwt, PEM, base64 and
-- X.509 (JwtLib, ConfLib), AES-GCM and JSON of the tickets, the random source, the embedded files and
-- the MIME types, the text of a time. Where a theorem relies on such a library, the behaviour is a
-- named hypothesis.
--
-- Not modelled: process start, the connections to the database and to Redis, the address of the
-- database and the printing of the configuration, logging, the figures of the Go runtime on the
-- dashboard, CORS, and the generated gRPC stubs.
pub mod Prelude
pub mod Pool
pub mod Dispatch
pub mod Hub
pub mod Session
pub mod Token
pub mod Ticket
pub mod Middleware
pub mod Constant
pub mod Model
pub mod Response
pub mod Dto
pub mod World
pub mod Repository
pub mod Logic
pub mod Service
pub mod Tasks
pub mod Handler
pub mod Grpc
pub mod Dashboard
pub mod Conf
pub mod Console
