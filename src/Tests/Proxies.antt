-- ===== src/Tests/Proxies.antt =====
-- What the proxies forward (src/common/tcproxy, src/proxies/mgo).
use swifty.Base.{
  ◌≡◌, ◌≢◌, ◌==◌, if◌then◌else◌, arith, false, Option, none, some, List, [], ◌∷◌, ◌++◌, length,
}
use swifty.Base.Bytes.{Bytes}
use swifty.Effects.{Error, failure}
use swifty.Common.Tcproxy.{Collector, Writer, Consumer, forward, data_ready}
use swifty.Common.Tcproxy.Chunks.{seen, concat}
use swifty.Common.Tcproxy.Chunks as TcproxyChunks
use swifty.Proxies.Mgo.{Document, Ops, Req, try}
use swifty.Proxies.Mgo.Steady.{try-IsConsumer, Consumes, try-Consumes}

abbrev no_documents : Bytes → Option Document
no_documents b = none

abbrev ops : Ops
ops = record { query_op = λ n. false; service_op = λ n. false }

abbrev no_empty : List Req → Req → Option Error
no_empty s rq = if rq.rlen == 0 then some (failure "Empty") else none

no_empty-refuses : (s : List Req) (rq : Req) → rq.rlen ≡ 0 → no_empty s rq ≢ none
no_empty-refuses s rq z h = ground arith

abbrev consumer : Consumer (List Req)
consumer = try no_documents ops no_empty

abbrev write_all : Writer
write_all out b = (length b, none)

abbrev start : Collector (List Req)
start = record { collected = []; out = []; state = [] }

-- A message of 16 bytes, and the start of another, in three reads.
abbrev read_1 : Bytes
read_1 = 16 ∷ 0 ∷ 0 ∷ 0 ∷ 7 ∷ []

abbrev read_2 : Bytes
read_2 = 0 ∷ 0 ∷ 0 ∷ 0 ∷ 0 ∷ 0 ∷ 0 ∷ 1 ∷ 0 ∷ 0 ∷ 0 ∷ 99 ∷ []

abbrev read_3 : Bytes
read_3 = 1 ∷ 2 ∷ []

forward-chunks_example :
    seen (forward consumer write_all start (read_1 ∷ read_2 ∷ read_3 ∷ []))
    ≡ seen (data_ready consumer write_all start (read_1 ++ concat (read_2 ∷ read_3 ∷ [])))
forward-chunks_example =
    TcproxyChunks.forward-chunks consumer write_all
      (try-IsConsumer no_documents ops no_empty no_empty-refuses) start read_1
      (read_2 ∷ read_3 ∷ [])

try-Consumes_example : Consumes no_documents ops no_empty
try-Consumes_example = try-Consumes no_documents ops no_empty
