-- ===== src/Lib.antt =====
-- A replicated key-value store: clients talk to a load balancer, which finds the backends of a
-- key on a consistent hash ring and forwards each request; a backend is an HTTP server with an
-- LRU cache over a PostgreSQL table.
--
--   Backend      load_balancer/include/Backend.h: the status and the address of a backend.
--   HashRing     load_balancer/src/HashRing.cpp: add_node, remove_node, getNodes (`get_nodes`).
--                Children: Walk (the loop of getNodes and the preference list), Lookup, Replicas,
--                Slots (which hashes belong to a node), Disruption, Service.
--   Router       load_balancer/src/Router.cpp: the ring and the map from ports to backends, all
--                methods. Children: Validity (the invariant), Reach (sequences of calls), Routing.
--   HttpParser   load_balancer/src/HttpHelper.cpp: parseHTTPRequest, getContentLength, and getKey of
--                load_balancer/include/HttpParser.h. Children: Numbers, Stability, Framing.
--   HttpResponse load_balancer/src/HttpHelper.cpp: parseHTTPResponse. Child: Lengths.
--   ProxySession load_balancer/src/ProxySession.cpp: all functions; its parts that use no socket are in
--                the child Messages. Other children: Progress (how a part ends and what it sends),
--                Exchange and Talk (a backend is asked), Choice and Replies (writes), Failover
--                (reads), Requests and Traffic (how a session ends), Pipelining (several requests
--                at once).
--   LoadBalancer load_balancer/src/LoadBalancer.cpp and load_balancer/src/main.cpp: the listening
--                socket, the initial router, the clients that are accepted. Child: Rounds (of the health
--                checker on the initial router).
--   Sockets      The sockets of the operating system, as an interface with laws.
--   Clients      The clients of httplib, as interfaces.
--   RecoveryManager  load_balancer/src/RecoveryManager.cpp: recover and what it calls. Children: Keys
--                (the list of keys on the wire), Safety (what a recovery may do), Steady and
--                Completeness (what it does).
--   HealthChecker  load_balancer/src/HealthChecker.cpp: all functions; `round` is one turn of the loop
--                of run. Children: Moves, Rounds, Loop (a sequence of rounds), Life (start and stop).
--   LruCache     kvcache.h: all methods. Children: Spec (the list of pairs in order of use), Nodes,
--                Refinement, Eviction, Entries, Trace (sequences of calls).
--   Database     PostgreSQL behind libpqxx, as an interface with laws.
--   KvServer     kvserver.cpp: the handlers. Children: Coherence (cache and table agree), Outcomes,
--                Writes, Updates, Reads, Race (two requests at once), Routes (the table of routes in
--                main), Store (what the server promises), Service (it keeps the promise over a
--                sequence of calls), Port (the argument of main).
--   KvClient     kvclient.cpp: the interactive client. Children: Commands (from a line to the server's
--                handler), Input (the end of the input).
--   LoadGen      load_gen.cpp: the workers, their requests and counters, the report. Children: Workers
--                (a worker on its own), Keys (workers that interleave), Report.
--   Base         what the parts share: texts as lists of bytes, decimal numbers, std::map, std::set and
--                std::unordered_map as lists, search in texts, input streams, numbers in texts, results.
--   Tests        concrete inputs and tests.
--
-- The health checker marks backends and starts recoveries; a recovery asks the router for the
-- replicas of a key and copies values between servers. The router owns the ring: marking a
-- backend DOWN takes it off the ring, marking it RECOVERING or UP puts it back. A method that
-- locks a mutex is one function from state to state. Calls of the router come one after another
-- in Reach; its map of backends has no lock in the source, so the data race between the threads
-- is not in the model. A round of the health checker and a recovery see no calls of other
-- threads. Undefined behaviour of the cache (an iterator whose node is gone, `back` of an empty
-- list) is `none`, as is running out of fuel in `get_nodes`.
--
-- Numbers: `hash_string` keeps 32 bits; the sums of the two parsers on size_t are taken modulo 2
-- ^ 64; getContentLength reads a long long with std::from_chars, and 0 if that fails; std::stoul
-- negates modulo 2 ^ 64. Fuel: the loop of getNodes has one round for each entry of the ring and
-- one for the last test, which is enough since every round takes one entry off the turn; printing
-- a number has one round more than its value. `sendAll` has a round for each byte, the inner loop
-- of forwardTraffic a round for each byte of the buffer, and the wait for a response 2 ^ 63 rounds,
-- which is enough since each adds a byte to a std::string, which holds fewer; the append that would
-- fill it throws length_error. The outer loop of forwardTraffic, the loop of the client,
-- the loop that accepts clients and a worker take the number of their rounds as an argument. A
-- worker that has used them up is still running, as one whose clock stands still; its counters of
-- type long long hold numbers below 2 ^ 63, so they are exact for fewer rounds and nanoseconds.
--
-- Parameters: std::hash<std::string> is a function `hasher`; `Clients` answers a request in a
-- state of the network, or not at all, and so does the `Client` of the two programs that talk to
-- the load balancer; `Machine` adds std::chrono::steady_clock, which never goes back; `Sockets` and `Listener` are the calls of the operating system: recv and
-- send may never return, and send may end the process by SIGPIPE, which the load balancer does not
-- ignore; `traffic` is all that went over a descriptor; `Doubles` prints the two floating-point numbers of the report.
-- PostgreSQL is a `Database`. Its laws say what each
-- statement returns and leaves in the table, that a commit keeps what the transaction made, and
-- that a TEXT holds no NUL. An exception before the commit leaves the table as it was. A commit
-- that throws has taken effect or not (`pqxx::in_doubt_error`): both are outcomes of the model, and
-- a key whose update, removal or sync has thrown at the commit is in doubt in Coherence and Store.
--
-- Not modelled: threads as such and pauses; the audit log, console output and thread pool of the
-- server, and its call of listen; the prompts of the client and of the load generator;
-- httplib.h, a copy of a library.
pub mod Base
pub mod Backend
pub mod HashRing
pub mod Router
pub mod LruCache
pub mod HttpParser
pub mod HttpResponse
pub mod Database
pub mod KvServer
pub mod Sockets
pub mod ProxySession
pub mod Clients
pub mod LoadBalancer
pub mod KvClient
pub mod LoadGen
pub mod RecoveryManager
pub mod HealthChecker
mod Tests
