-- ===== src/Lib.antt =====
-- Verification library of OpencodeProxy, a proxy that serves OpenAI and Anthropic clients from a pool
-- of upstream keys.
--
-- The parts of the program and how they interact. A request of a client comes to HandleInference
-- (internal/proxy/service.go). It records the request in the store (internal/store/sqlite.go), opens
-- the cooling keys that are due, takes the eligible keys, and tries them in their order: each round
-- decrypts a key, calls the upstream and classifies the response (internal/proxy/classifier.go). A
-- failure of the key (quota or authentication) cools or invalidates it in the store and goes on to the
-- next key; anything else is forwarded to the client, as a stream of events or as a whole body, with
-- the tokens counted (internal/proxy/usage.go). The console and the enrolment of clients
-- (internal/httpapi) share that store, the identity (internal/identity) and the sessions; a request
-- of theirs passes a gate, changes the store or the identity, and is answered.
--
-- Which file models which part:
--   * Base, Text: lists, numbers, int64 and byte strings, as the standard library of Go has them.
--     Base/Sorting, Base/Groups: ORDER BY and GROUP BY of a query. Text/Numbers: strconv and fmt.
--   * Time: times as nanoseconds, with the order of their stored texts (nowText of
--     internal/store/sqlite.go).
--   * Store/Types: the structs of internal/store/types.go and the tables of migrate. Store/Keys,
--     Store/Telemetry, Store/Routing: one function per method of Store. Store/Steps: the store as a
--     transition system, whose steps are its operations. Store/Opened: the database that migrate
--     leaves in a new file. Store/Reports: RecentRequests, ClientAggregates and Dashboard.
--   * Proxy/Json, Proxy/Header: decoded JSON, http.Header and the header functions of
--     internal/proxy/service.go. Proxy/Regex, Proxy/Patterns, Proxy/Reset, Proxy/Classifier:
--     internal/proxy/classifier.go. Proxy/Usage: internal/proxy/usage.go. Proxy/Sse, Proxy/Request:
--     readSSEEvent, eventData, readLimited, ensureStreamUsage. Proxy/World: the database, the clock,
--     the response and the log of what crosses the network. Proxy/Stream: forwardStream.
--     Proxy/Inference: HandleInference, recordKeyFailure, promoteIfNeeded, finish.
--     Proxy/Models: HandleModels. Proxy/Probe: TestKey.
--   * Api/Sessions, Api/Gates: sessionStore, adminAuth, proxyAuth and sameOrigin of
--     internal/httpapi/auth.go. Api/Enrollments: enrollmentStore of internal/httpapi/client_setup.go.
--     Api/Keys: persistKey, updateKey, activateKey and updateSettings of internal/httpapi/api.go.
--     Text/Maps: a Go map with strings as keys.
--   * Api/Server: the fields of API and how its handlers answer. Api/Account, Api/Pool, Api/Import,
--     Api/Overview: the handlers of internal/httpapi/api.go. Api/Clients, Api/Providers: those of
--     internal/httpapi/client_setup.go. Api/Router: Router, with what stands behind adminAuth and
--     proxyAuth, and requests one after another. Api/Web: webHandler. Text/Paths: package path/filepath.
--   * Identity: Manager of internal/identity/manager.go, with the state in memory and the file.
--     Identity/Passwords: hashPassword and verifyPassword. Identity/Opening: Open and the reads.
--     Configuration: internal/config/config.go.
--     Cryptox: internal/cryptox/cipher.go. Scheduler: run of internal/scheduler/scheduler.go.
--   * Proofs: Time/Order, Store/Consistency, Store/Selection, Store/Lifecycle, Store/Activation,
--     Proxy/Failover, Proxy/Classifier/Kinds, Proxy/Header/Entries, Proxy/Header/Privacy,
--     Proxy/Stream/Relay,
--     Proxy/Sse/Reading, Proxy/Usage/Accounting, Proxy/Usage/Reported, Proxy/Models/Serving, Proxy/Probe/Rows, Proxy/Probe/Outcome,
--     Proxy/Probe/Calls, Scheduler/Selecting, Api/Sessions/Lifetime, Api/Enrollments/OneTime,
--     Api/Gates/Entry, Api/Gates/Revoked, Api/Keys/Activated, Api/Keys/Console, Identity/Rollback, Identity/Access,
--     Identity/Passwords/Verifying, Identity/Restart, Cryptox/RoundTrip, Configuration/Accepted, Configuration/Started,
--     Store/Reports/Conserved, Store/Reports/Counted, Store/Reports/Recent, Api/Import/Tally, Api/Moves, Api/Sealed,
--     Api/Pairing, Api/Overview/Complete.
--   * Examples: the properties at concrete databases and requests.
--
-- What is outside the program is a parameter: of the record Env of Proxy/World the replies of the
-- upstream, whether a write reaches the client, the key cipher and the JSON codec; of
-- Identity/Passwords the hashes and base64 (Hashing); of Identity how the writing of the file ends
-- (Persist); of Configuration the environment (Platform); of Api/Server the encoding of answers, the
-- cookies, net/url and the install scripts (Backend), and what a handler draws at random (Visit); of
-- Cryptox the AEAD. A call of the store fails only by a constraint of its tables. A handler runs
-- alone: other goroutines appear only through the transition system, which allows any sequence of
-- operations, and requests come one after another. The fuel of read_events is the length of the body
-- and one more, as each read but the last takes at least one byte; the loop over the keys is
-- structural; the ticks of the event stream are given in number.
--
-- Not modelled: the matching of methods and paths, which is chi's, so that webHandler stands
-- apart; the cancellation of a request's context; the tickers around the scheduler; the rounding of
-- float64 and the overflow of int64 in parseHumanDuration, which parse_human_duration takes as exact;
-- the entry
-- point (cmd/opencodeproxy/main.go), which wires the parts; KeyByFingerprint and VerifyProxy,
-- which the program does not call.
pub mod Base
pub mod Text
pub mod Time
pub mod Store
pub mod Proxy
pub mod Scheduler
pub mod Api
pub mod Identity
pub mod Cryptox
pub mod Configuration
pub mod Examples
