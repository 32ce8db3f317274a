-- ===== src/Lib.antt =====
-- A verification library for paid_server: a backend (backend/) that sells game accounts, and a
-- gateway (gateway/) in front of it that authenticates requests and pushes payment results.
--
-- A client reaches the gateway through nginx. The gateway looks the login session of the cookie up
-- in Redis, and forwards the request to the backend with the header X-User-Id. The backend keeps
-- users, orders, accounts, payment sessions and payment attempts in MySQL. A buyer confirms an
-- order, scans a token, opens an attempt and pays with the login password; the backend then
-- notifies the gateway, which pushes the result to the payment page over a WebSocket.
--
-- Files:
--   Base          lists, bytes, maps and Boolean tests. A text is the list of its bytes in UTF-8.
--   Database      backend/common/mysql_pool.hpp. Rows: the structures and inputs. Monad: the
--                 statements on a connection. Queries: the queries and single updates. Finalize:
--                 finalizePaymentSuccess, with a child for each group of its theorems. Ends: the
--                 rules that say how an action ends, with a value or an exception. Statements: the
--                 text of the SELECT statements; Updates and Locks below it: of the others; Tokens,
--                 Reading, Safety: how a server reads them. Parse: the fields of an answer, queryRows
--                 and the parse functions; Infos: the structures with all their members; Columns: the
--                 columns that the SELECT statements name; Fields, Stored, Server, Answers: from the
--                 rows of the tables to the records.
--   Strings       toLower, headerValue, queryParam, cookieValue, trim, split. Digits: numbers in decimal.
--   Results       computations that may throw.
--   Logger        backend/common/logger.hpp. Calls: any sequence of calls of its methods.
--   Interfaces    nlohmann::json and OpenSSL, as the parameters of what uses them.
--   Jwt           backend/common/jwt.hpp, JwtService.
--   Identity      backend/common/jwt.hpp, HashService, and backend/common/password_verifier.hpp.
--   Settings      backend/common/config.hpp and gateway/common/config.hpp. Numbers: std::stoi and the
--                 conversions. Load: loadFromEnvFile. Values: the typed look-ups. Backend, Gateway:
--                 the sections of each service. Bounds and Keys: their theorems.
--   Pool          MySqlPool (backend/common/mysql_pool.hpp), RedisPool
--                 (backend/common/redis_pool.hpp) and SessionStore
--                 (gateway/common/session_store.hpp) as pools of connections. Outcomes: the
--                 interface that the three fill. Steps: their methods as steps of threads. Ledger,
--                 Safety, Capacity, Losses: the theorems. Guards, Owned: ConnectionGuard. Commands,
--                 Replies: the commands of RedisPool on a connection.
--   Server        backend/common/thread_pool.hpp, backend/common/http_server.hpp and the counter of
--                 gateway/main.cpp. Workers, Slots, WebSockets: their steps and theorems. Stopped:
--                 the end of a WorkerPool.
--                 Listen: gateway/common/http_server.hpp, from accept to close; Served, Opened: its
--                 theorems.
--   Http          backend/main.cpp, gateway/main.cpp, the reading of responses in
--                 gateway/common/http_forwarder.hpp and backend/common/gateway_notify.hpp. Backend,
--                 Gateway: one connection. Response: readHttpResponse. Notify: notifyPaymentResult.
--                 Chunks: requests in pieces. Forwarded: requests from the gateway to the backend;
--                 Replied: the way back; Through: both, with the backend's handlers between them.
--                 Dial: connectBackend and its descriptor. Posted and Notified: a notification and its
--                 answer. Lines, Target, Stored, Identity, Sent, Returned, Written, Decide: their
--                 lemmas.
--   Payment       backend/payment_impl.hpp. World: what the handlers act on. Sessions: the commands
--                 of backend/common/redis_pool.hpp. Auth, Orders, Scan, Pay: the handlers. Routes:
--                 handleRequest. Steps and the children of Pay: their theorems.
--   Gateway       Handler: gateway/gateway_impl.hpp. Forwarder: gateway/common/http_forwarder.hpp.
--                 Access, Backend: who reaches the backend, and what it reads of the user. Frame,
--                 Registry, Handshake: gateway/common/ws_registry.hpp. Links, History: the registry
--                 after one call, and after any calls. Base64, Upgrade: what the handshake answers.
--                 Connection, Ends: handleWebSocketClient of gateway/main.cpp. Listen:
--                 runWebSocketServer. Main: main; its child Ends: how it ends.
--
-- A function that may throw is an action: a state to a value or an exception, and a state. The
-- database is its five tables, a time in seconds, the tables at the start of an open transaction,
-- and a schedule that says what happens to each coming statement: it runs, it is refused, or it runs
-- and its reply is lost. The theorems on faults leave only the last out (Heard). A ROLLBACK that
-- fails counts as a dropped connection, which rolls back as well. The time stands still during a
-- call. For the handlers a SELECT with its parser is a lookup that gives a record; the text of the
-- statement and the fields of the answer are in Statements and Parse. Statuses, prices and times are
-- natural numbers; keys are compared byte by byte, where the collation of the server may be coarser.
-- Concurrent calls are sequences of calls: a transaction locks the rows that it reads.
--
-- A statement is a list of literals of the source and of values that are escaped; the escape function
-- of the client library and the answers of the server are parameters. A server reads a text byte by
-- byte: a quote opens or closes a literal, a backslash takes the next byte with it.
--
-- A pool numbers its connections by their opening, and keeps where each of them is; the answers of
-- the client libraries are inputs of each call. acquire() is two steps, since other threads run
-- while a connection is tested. The reads of a socket are a list of texts, an empty one for the end
-- or an error; the loops over it are recursion on the list, and on the lines of the head. The two
-- services have the same text for readHttpRequest, WorkerPool, Server and loadFromEnvFile, which are
-- modelled once. An int is an integer that is tested against its bounds; a conversion to an unsigned
-- type keeps its wrap-around.
--
-- The loops over the fields of a query and the digits of a number have fuel, the length of the text
-- and the number itself, each with one to spare: a round takes at least one byte, or a digit.
--
-- Not modelled: the system calls themselves (sockets, epoll, poll, signals), whose answers are inputs;
-- main of the backend, which has the calls of the gateway's without the WebSocket server; spdlog, fmt
-- and std::regex; the socket of the notification. The random numbers are a list
-- that the environment gives.
pub mod Base
pub mod Database
pub mod Results
pub mod Strings
pub mod Interfaces
pub mod Logger
pub mod Jwt
pub mod Identity
pub mod Settings
pub mod Payment
pub mod Gateway
pub mod Pool
pub mod Server
pub mod Http
