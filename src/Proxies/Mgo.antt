-- ===== src/Proxies/Mgo.antt =====
-- src/proxies/mgo/request.go: the requests to MongoDB as the proxy reads them. bson.Unmarshal and the modules of
-- the proxy (pipelineRun) are arguments.
pub mod Steady
use swifty.Base.{
  ℕ, suc, ◌+◌, ◌*◌, Bool, true, false, ◌&&◌, ◌||◌, Option, none, some, String, List, [], ◌∷◌, ltb,
  leb, length, take, drop, if◌then◌else◌, ◌==◌,
}
use swifty.Base.Bytes.{Bytes, same, split_2}
use swifty.Effects.{Error}
use swifty.Common.Tcproxy.{Stop, error, panic, Tried, Consumer}

-- bson.D, as far as it is looked at: names, and the values that are texts.
pub record Element : Type 0 where
  pub name : Bytes
  pub text : Option Bytes

abbrev pub Document : Type 0
Document = List Element

-- mr_info, mongo_query, mongo_cmd, mongo_req.
pub record Info : Type 0 where
  pub typ : String
  pub act : Bytes
  pub db : Bytes
  pub col : Bytes

pub record Query : Type 0 where
  pub flags : ℕ
  pub skip : ℕ
  pub retn : ℕ
  pub col : Bytes
  pub doc : Document

pub record Cmd : Type 0 where
  pub db : Bytes
  pub cmd : Bytes
  pub doc : Document

pub record Body : Type 0 where
  pub q : Option Query
  pub c : Option Cmd
  pub inf : Option Info
  pub err : String

pub record Req : Type 0 where
  pub rlen : ℕ
  pub reqid : ℕ
  pub respto : ℕ
  pub opcode : ℕ
  pub bytes : Bytes
  pub body : Body

-- A read of an element that is not there, or of a value of another type, panics.
pub data Decoded (A : Type 0) : Type 0 where
  decoded : A → Decoded A
  panics : Decoded A

-- binary.LittleEndian.Uint32, of four bytes at least.
pub uint32 : Bytes → ℕ
uint32 (a ∷ b ∷ c ∷ d ∷ _) = a + 256 * b + 65536 * c + 16777216 * d
uint32 _ = 0

unread : Option (Bytes × ℕ) → ℕ → Option (Bytes × ℕ)
unread none b = none
unread (some (s, n)) b = some (b ∷ s, suc n)

-- read_cstring, with none for -1.
pub read_cstring : Bytes → Option (Bytes × ℕ)
unfolding unread
read_cstring [] = none
read_cstring (b ∷ buf) =
    let rest = read_cstring buf in if b == 0 then some ([], 1) else unread rest b

abbrev is_cmd : Option Bytes → Bool
is_cmd none = false
is_cmd (some s) = same s (b'$' ∷ b'c' ∷ b'm' ∷ b'd' ∷ [])

-- query_ops and service_ops.
pub record Ops : Type 0 where
  pub query_op : Bytes → Bool
  pub service_op : Bytes → Bool

module _ (unmarshal : Bytes → Option Document) (ops : Ops) where
  -- read_document, without the length, which nobody reads.
  read_document : Bytes → Document × String
  read_document buf =
      if ltb (length buf) 4
      then ([], "empty doc")
      else if ltb (uint32 buf) 4 || ltb (length buf) (uint32 buf)
      then ([], "short doc")
      else elim (unmarshal (take (uint32 buf) buf)) [
        | none ↦ ([], "doc decode")
        | some doc ↦ (doc, "")
      ]

  text_value : String → Bytes → Bytes → Option Bytes → Decoded (Option Info)
  text_value typ name db none = panics
  text_value typ name db (some t) =
      decoded (some (record { typ = typ; act = name; db = db; col = t }))

  decode_doc : String → Bytes → Document → Decoded (Option Info)
  unfolding text_value
  decode_doc typ db [] = panics
  decode_doc typ db (e ∷ es) =
      if ops.query_op e.name
      then text_value typ e.name db e.text
      else decoded (
          if ops.service_op e.name
          then some (record { typ = typ; act = e.name; db = db; col = [] })
          else none)

  failed : String → Decoded Body
  failed message = decoded (record { q = none; c = none; inf = none; err = message })

  query_body : Query → String → Decoded (Option Info) → Decoded Body
  query_body q errm panics = panics
  query_body q errm (decoded inf) = decoded (record { q = some q; c = none; inf = inf; err = errm })

  with_col : Bytes → Bytes → ℕ → Decoded Body
  unfolding read_document decode_doc query_body failed
  with_col buf col ln =
      if ltb (length buf) (12 + ln)
      then failed "colname overflow"
      else let (doc, errm) = read_document (drop (12 + ln) buf) in
        let (db, rest) = split_2 b'.' col in
        let q : Query = record {
          flags = uint32 buf;
          skip = uint32 (drop (4 + ln) buf);
          retn = uint32 (drop (8 + ln) buf);
          col = col;
          doc = doc;
        } in
        query_body q errm (if is_cmd rest then decode_doc "query" db doc else decoded none)

  decode_mongo_query : Bytes → Decoded Body
  unfolding with_col read_cstring failed
  decode_mongo_query buf =
      if ltb (length buf) 4 then failed "short data" else elim (read_cstring (drop 4 buf)) [
        | none ↦ failed "colname overflow"
        | some (col, ln) ↦ with_col buf col ln
      ]

  cmd_body : Bytes → Bytes → Document × String → Decoded Body
  cmd_body db cmd ([], errm) = panics
  cmd_body db cmd (e ∷ es, errm) = decoded (record {
    q = none;
    c = some (record { db = db; cmd = cmd; doc = e ∷ es });
    inf =
        if same e.name cmd
        then some (record {
          typ = "cmd";
          act = cmd;
          db = db;
          col = elim e.text [ none ↦ [] | some t ↦ t ];
        })
        else none;
    err = errm;
  })

  decode_mongo_cmd : Bytes → Decoded Body
  unfolding cmd_body read_document read_cstring failed
  decode_mongo_cmd buf = elim (read_cstring buf) [
    | none ↦ failed "db overflow"
    | some (db, dln) ↦ elim (read_cstring (drop dln buf)) [
      | none ↦ failed "cmd overflow"
      | some (cmd, cln) ↦ cmd_body db cmd (read_document (drop (dln + cln) buf))
    ]
  ]

  of_body : (Body → Req) → Decoded Body → Decoded (Option Req)
  of_body k panics = panics
  of_body k (decoded b) = decoded (some (k b))

  -- A request whose bytes are all there.
  complete : ℕ → ℕ → ℕ → ℕ → Bytes → Decoded (Option Req)
  unfolding decode_mongo_query decode_mongo_cmd of_body failed
  complete rlen reqid respto opcode bytes =
      of_body
        (λ body. record {
          rlen = rlen;
          reqid = reqid;
          respto = respto;
          opcode = opcode;
          bytes = bytes;
          body = body;
        })
        (if leb 16 rlen && (opcode == 2004)
          then decode_mongo_query (drop 16 bytes)
          else if leb 16 rlen && (opcode == 2010)
          then decode_mongo_cmd (drop 16 bytes)
          else failed "")

  -- decode_mongo_req, with none for a request that is not complete.
  pub decode_mongo_req : Bytes → Decoded (Option Req)
  unfolding complete
  decode_mongo_req bytes =
      let rlen = uint32 bytes in
      if ltb (length bytes) 16
      then decoded none
      else if ltb (length bytes) rlen
      then decoded none
      else complete rlen (uint32 (drop 4 bytes)) (uint32 (drop 8 bytes)) (uint32 (drop 12 bytes))
          (take rlen bytes)

  module _ (pipeline_run : List Req → Req → Option Error) where
    -- Try of mgoConsumer. The modules may remember the requests that were let through; one of length 0 is not.
    tried : List Req → Decoded (Option Req) → Tried (List Req)
    tried s panics = record { len = 0; err = some panic; state = s }
    tried s (decoded none) = record { len = 0; err = none; state = s }
    tried s (decoded (some rq)) = elim (pipeline_run s rq) [
      | some e ↦ record { len = 0; err = some (error e); state = s }
      | none ↦ record { len = rq.rlen; err = none; state = rq ∷ s }
    ]

    pub try : Consumer (List Req)
    unfolding tried decode_mongo_req
    try s bytes = tried s (decode_mongo_req bytes)
