-- ===== src/Lib.antt =====
-- Swifty, a platform for functions as a service (Go): models of its core and proofs about them.
--
-- The gate (src/gate) keeps functions, middleware, deployments and what calls them as documents in a
-- database, and drives a cluster and other services; the S3 service (src/s3) keeps objects in parts
-- and chunks, with policies over them; src/common holds packages that both use. Each modelled operation
-- is a function with the source's name in this language's spelling.
--
--   Common/Ratelimit    src/common/ratelimit/rl.go: RL.Put, Get, Update, MakeRLBase
--   Common/Xqueue       src/common/xqueue/queue.go: split, SendBytes, recvBytes
--   Common/Bitmask      src/common/bitmask.go
--   Common/Xtimer       src/common/xtimer/timer.go
--   Common/Xwait        src/common/xwait/xwait.go
--   Common/Tcproxy      src/common/tcproxy/proxy.go: collecting, forwarding and sending
--   Common/Creds        src/common/creds.go: XCreds, its URL and its parsing
--   Common/Crypt        src/common/crypt.go: EncryptString, DecryptString and the padding
--   Gate/Errors         src/gate/error.go: GateErrC, GateErrE, GateErrM, GateErrD
--   Gate/Function       src/gate/function.go: Add, Start, Del, activation, updateSources;
--                       Size and Resize: fnFixSize and setSize (with FnMemData of src/gate/fdmdat.go)
--   Gate/Mware          src/gate/mware.go: Add, Del, ToState, checkMwCount
--   Gate/Deploy         src/gate/deploy.go: StartItems, StopItems, Start, Del
--   Gate/Scaler         src/gate/scaler.go and src/gate/balancer.go: the scaler's goroutine, the rovers
--   Gate/Pods           src/gate/pods.go: podsAdd, podsDel, podsFindAll, podsFindExact
--   Gate/Router         src/gate/router.go, and methodNr of src/gate/main.go
--   Gate/Event          src/gate/event.go: guessSource, getEventDesc, Add, Delete, clearAllEvents
--   Gate/Call           src/gate/url.go: FnMemData.Handle
--   Gate/Url            src/gate/url.go: urlCreate, urlFind, urlClean, with the two steps of urlFind apart
--   Gate/Limits         src/gate/fdmdat.go: ratelimited, rslimited
--   Gate/Stats          src/gate/stats.go: the counters of a tenant, their flushing, getCallStats
--   S3/Data             src/s3/data.go: WriteChunks, DeleteChunks, AddPart, DeletePart, DeleteParts
--                       Reader: ChunkReader.Next; Reading: ReadChunks, ReadParts, IterChunks,
--                       CopyChunks, CopyPart; Resum: ResumParts
--   S3/Acct             src/s3/acct.go: rsLimited, acctObj, unacctObj, commitObj
--   S3/Object           src/s3/object.go: Activate, AddObject, UploadToObject, DropObject;
--                       Copying: CopyObject
--   S3/Upload           src/s3/upload.go: dbLock, dbUnlock, dbRefInc, dbRefDec, the removal; Handlers: s3UploadInit, Part, Fini, Abort
--   S3/Listing          src/s3/bucket.go: s3ListBucket and the check of its parameters
--   S3/Keys             src/s3/keys.go, src/s3/iam.go: access keys, identities, accounts
--   S3/Bucket           src/s3/bucket.go: insertion, deletion and repair of a bucket
--   S3/Policy           src/s3/policy.go, src/s3/mgo/bits.go: actions, canned policies, their checks
--   Proxies/Mgo         src/proxies/mgo/request.go: the decoding of requests, and Try
--   Base, Effects       shared names, texts as bytes, and the calls that leave the program
--   Tests               the theorems at concrete inputs
--
-- The parts work together as in the source: the size of a function (Gate/Function/Resize) and the gate's
-- limits (Gate/Limits) use the token bucket, a call (Gate/Call) passes these limits and the rovers of
-- Gate/Scaler, objects (S3/Object) are built of parts (S3/Data) and of
-- accounting (S3/Acct).
--
-- State is passed on explicitly. What is not the program's own (the database, the cluster, sockets,
-- the handlers of each kind of middleware) is an argument `env` that answers each call as it likes
-- and sees all calls made before, so each theorem holds for every pattern of failures; the calls
-- made are recorded in a trace, and theorems read off it what is held and what was released. A
-- document's atomic change (MongoDB's findAndModify) is an interface with laws, S3/Collection. Where
-- goroutines meet, the model is a relation of steps from lock to lock (Gate/Scaler/Steps,
-- Gate/Pods/Runs, Gate/Stats/Runs, S3/Upload/Exclusion, Common/Xtimer/Runs, Common/Xwait/Runs).
--
-- Numbers that are machine words in the source wrap around where the code can reach the bound
-- (Common/Ratelimit, Gate/Limits, Gate/Stats, the rovers of Gate/Scaler). Four loops are on fuel. That of split in
-- Common/Xqueue takes at least one byte off at each round, so the length of the message, which it is
-- given, is enough, and the round trip shows that no byte is lost. That of Next in S3/Data/Reader reads
-- at least one byte at each round but the last, so one round more than the buffer has room for is
-- enough. That of the collector in Common/Tcproxy sends at least one byte at each round but the last, so
-- one round more than there are bytes is enough; so it is for the sender there, as a Write that reports
-- no error writes something. The clock's readings are
-- arguments. A float64 is of a type that is an argument too, with the operations that the code uses (Base/Floats).
--
-- Not modelled: HTTP, Kubernetes, MongoDB, RabbitMQ, Ceph and SQL requests as such, the log, metrics
-- beyond the gauges that Add and Del step, building and running of a function's code, the daemons and
-- tools beside the gate and the S3 service but for what two proxies share and the decoding of MongoDB's
-- requests, and of the parts above what the comments at the top of their files leave out.
pub mod Base
pub mod Effects
pub mod Common
pub mod S3
pub mod Gate
pub mod Proxies
pub mod Tests
