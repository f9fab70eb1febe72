-- ===== src/S3/Store.antt =====
-- What the S3 service asks of its database and of the Ceph cluster (src/s3/db.go, src/s3/rados.go), as
-- the object code sees it: one constructor for each kind of request. A request is answered by `env`.
use swifty.Base.{ℕ, Bool, Option, String, List}
use swifty.Effects.{Error}

-- s3mgo.ObjectPart: its size, the data that it holds itself (Data), and the ids of its chunks (Chunks).
pub record Part : Type 0 where
  pub size : ℕ
  pub inline : Option (List ℕ)
  pub chunks : List ℕ

pub data Call : Type 0 where
  -- The documents of parts and chunks.
  insert_part remove_part remove_inactive_part set_inactive_part : Part → Call
  set_active_part : Part → String → Call
  set_chunks : List ℕ → Call
  insert_chunk : ℕ → List ℕ → Call
  find_chunk remove_chunk : ℕ → Call
  find_parts end_of_parts : Call
  rados_write rados_delete : Call
  -- The document of an object.
  insert_object remove_object set_inactive_object remove_inactive_object : Call
  set_active_object : String → Call
  find_object : Call
  -- The counters of the namespace (`stats`) and of the bucket, up and down by an object's size, and the
  -- bucket's count of objects not committed yet.
  stats_add stats_sub bucket_add bucket_sub bucket_sub_ref bucket_commit : Call
  request_fsck : Call
  observe gc_old_versions notify : Call

-- What the documents rely on that is not this program's: new ids (bson.NewObjectId) and checksums. The
-- limits are settings of the daemon (src/s3/limits.go).
pub record Conf : Type 0 where
  pub rados_disabled : Bool
  pub inline_data_size : ℕ
  pub max_chunk_size : ℕ
  pub new_id : List ℕ → ℕ
  pub md5 : List ℕ → String
  pub rados_sum : String

-- What ChunkReader.Next returns, one call after the other, up to the nil that ends the data.
pub data Next : Type 0 where
  fail : Error → Next
  more : List ℕ → Next
