-- ===== src/Lib.antt =====
-- rpc-pigeon is a gateway for gRPC calls to speech engines (ASR and TTS). It keeps pools of
-- connections to the engines, finds a connection for each call by the address and token of the
-- request, relays the messages of the call over it, and gives the connection back. The files below
-- model the package pkg/plugins/pool/grpc, its servers in pkg/plugins/proxy/grpc.go, the start in
-- pigeon.go and the metrics of pkg/plugins/metrics/engine.go, and of the HTTP side the routes and
-- the proxy of pkg/plugins/proxy/http.go, and the client, the middleware, the database and the log
-- below pkg/plugins/httpserver and pkg/core/log.
--
-- - Common and its modules: lists and tests on the native numbers, integers with int32 and int64,
--   byte strings, maps as lists of entries, and code that returns, blocks for ever or panics
--   (Run).
-- - Grpc/Heap: the objects shared by pointer (Pool, Tenant), channels, and the dials. A pointer is
--   a number; a client has one owner at a time and is kept by value.
-- - Grpc/Pool (pool.go): new_pool is NewPool, acquire is Acquire, close is Close and drain its
--   goroutine, client_close is Client.Close, destory is Destory. The case that select takes and
--   the times that are read are arguments.
-- - Grpc/Tenant and Grpc/Tenant/Init (tenant.go): the methods of Tenant, and initTenantPool.
-- - Grpc/System: the calls of the two files above as steps between states, in any order. A state
--   has the store, the clients that callers hold, and those left to the goroutines of Close. The
--   modules below it keep the accounts of every channel; Safety has what follows of all reachable
--   states. The calls counted make pools of one of the two modes, with sizes that fit an int32;
--   what grpc.go writes into a pool (its name, its address and whether it is up) is a step too.
-- - Grpc/Race (pool.go): one pool between any number of goroutines, where every read, write, send,
--   receive and lock is a turn of its own. A goroutine stands at a place of Acquire, Client.Close,
--   Close or its goroutine; Moves says what a move changes, Places where the connections are,
--   Close what the lock protects, Progress who can have to wait, Strand what a Close between two
--   accesses of another goroutine does. That a context is done is a turn too.
-- - Grpc/Balance (options.go): balancePool and balanceTenantPool.
-- - Grpc/Token (grpc.go): strEncode and strDecode, with base64.
-- - Grpc/Director (options.go): GrpcProxyTransport, over the pools, the tenants, the balancing and
--   the tokens. Lends connects it to Grpc/System, Tokens and Balanced say which pool a request
--   reaches.
-- - Grpc/Codec (codec.go) and Grpc/Handler (handler.go): the codec that passes bytes through, and
--   the handler of a call, which uses the director, the two relay loops and Client.Close. A stream
--   may never end, and then the loop that reads it and the handler may wait for ever.
-- - Grpc/Gateway (grpc.go): newGrpcPool, InitGrpcPoolByOmp and ReleaseGrpcPool;
--   Grpc/Gateway/Setup: InitGrpcPool and initPoolForTenant. Installs and Entries say which pools
--   they make. Grpc/Discovery: a round of initPoolFromExistEngine and of
--   InitPoolFromExistEngineForUpdate. Grpc/Health: a round of the two health tasks. Grpc/Dial: the
--   options of grpcDial, and the probes. Grpc/Report: the reports of the pools and the metrics
--   made of them.
-- - Grpc/Service (grpc.go, options.go, pool.go): the gateway at work, as any sequence of set-ups,
--   rounds, releases, calls and their ends, each one act. Pools, Rounds and Settings show that
--   each function is a sequence of steps of Grpc/System.
-- - Grpc/Server (proxy/grpc.go): GRPCServer, with InitGrpcPool before it and grpcServer for each
--   enabled engine. Starts says which pools and servers there are then, and Routes which of the
--   pools a request to them gets; Calls (handler.go) has RegisterService and TransparentHandler.
-- - Plugins (pigeon.go, plugins/plugin.go): main, registerPlugins, and how the goroutines of the
--   plugins go on, as steps.
-- - Config: an environment variable, or else viper's value, as every part reads its settings.
-- - Http/Routes and Http/Server (proxy/http.go): HttpServer, definitionRoute, getRouterTask,
--   addRoute and watchRouter, over gin; Added and Served say what gin serves then. Http/Proxy: getRequestUrl, Request and the request of
--   runProxy; Http/Proxy/Exchange: runProxy and its goroutine as steps.
-- - Http/Query: url.Values.Encode, which http.go and HttpClient.go call. Http/Client
--   (httpserver/util/HttpClient.go): Do and its options.
-- - Http/Answers and Http/Tracing (httpserver/util/Common.go and Goroutine.go): SendMessage and
--   SendError; GenerateTracingJobs and doTask as steps.
-- - Http/Session, Http/Timeout, Http/RequestJob and Http/Cors (httpserver/middleware): the login
--   check over an interface of sessions, TimeoutHandler and requestJob, each with its goroutine as
--   steps, and Cors and CorsAll over what gin documents.
-- - Db (httpserver/db/init.go): dbConfigInit, dbInit, checkDB; Db/Cache: cacheInit and redisInit.
-- - Log (core/log/logger.go): init, getWriter and which messages are written.
-- - Examples: the theorems at concrete inputs.
--
-- Loops are by recursion on the list that they range over, or on their number of rounds: a pool's
-- clients, the five retries of a health check, the two rounds of select. There is no other bound.
--
-- In Grpc/System an operation is one step; Grpc/Race alone cuts the operations of a pool into
-- their accesses, for the clients that no tenant has taken, and leaves open what the clock, the
-- contexts and the dials decide.
--
-- Not modelled: the maps of grpc.go, which its goroutines share without a lock, the sleeps, gRPC,
-- viper, gin, fasthttp, gorm, redis, zap, Kubernetes (the package kvs is not in the repository)
-- and json, which are arguments where the code needs their answers. A set-up or a round is one act
-- of Grpc/Service: the acts of goroutines do not interleave inside it. Left out are the connection
-- that gRPC makes and the reading of the files by viper.
pub mod Common
pub mod Config
pub mod Grpc
pub mod Http
pub mod Db
pub mod Log
pub mod Plugins
pub mod Examples
