-- ===== src/RdmaApi/Replies.antt =====
-- internal/s3rdmaserver/s3api/handler.go: the replies, and the XML documents in them. A reply is what is
-- written to the http.ResponseWriter; a document is its Go value, before the encoding. An error is
-- named by its code and its cause, in place of the message.
use rdma_demo.Base.{ℕ, Bool, Option, none, some, List, [], map, length, take, ltb, if◌then◌else◌}
use rdma_demo.Base.Text.{Str, codes}
use rdma_demo.RdmaStore.{ListedObject}
use rdma_demo.RdmaApi.Paths.{PathError}
use rdma_demo.RdmaApi.Uploads.{Consumed}

pub data ErrorCode : Type 0 where
  method_not_allowed no_such_bucket no_such_key : ErrorCode
  invalid_uri : PathError → ErrorCode
  invalid_request : Consumed → ErrorCode

pub record S3ErrorResponse : Type 0 where
  pub code : ErrorCode
  pub bucket : Str
  pub key : Str
  pub request_id : Str

pub record CreateBucketResult : Type 0 where
  pub location : Str

pub record ListContent : Type 0 where
  pub key : Str
  pub last_modified : ℕ
  pub etag : Str
  pub size : ℕ
  pub storage_class : Str

pub record ListBucketResult : Type 0 where
  pub name : Str
  pub prefix : Str
  pub key_count : ℕ
  pub max_keys : ℕ
  pub is_truncated : Bool
  pub contents : List ListContent

pub record OwnerInfo : Type 0 where
  pub id : Str
  pub display_name : Str

pub record BucketInfo : Type 0 where
  pub name : Str
  pub creation_date : ℕ

pub record ListAllMyBucketsResult : Type 0 where
  pub owner : OwnerInfo
  pub buckets : List BucketInfo

pub data Document : Type 0 where
  error_document : S3ErrorResponse → Document
  create_document : CreateBucketResult → Document
  list_document : ListBucketResult → Document
  buckets_document : ListAllMyBucketsResult → Document

pub record Reply : Type 0 where
  pub status : ℕ
  pub content_type : Option Str
  pub etag : Option Str
  pub content_length : Option ℕ
  pub last_modified : Option ℕ
  pub document : Option Document
  pub bytes : Str

-- WriteHeader alone
abbrev pub write_header : ℕ → Reply
write_header status = record {
  status = status;
  content_type = none;
  etag = none;
  content_length = none;
  last_modified = none;
  document = none;
  bytes = [];
}

unfoldable pub write_xml : ℕ → Document → Reply
write_xml status v = record (write_header status) {
  content_type = some (codes "application/xml");
  document = some v;
}

unfoldable pub write_s3_error : ℕ → Str → ErrorCode → Str → Str → Reply
unfolding write_xml
write_s3_error status req_id code bucket key =
    write_xml status
      (error_document (record { code = code; bucket = bucket; key = key; request_id = req_id }))

unfoldable pub list_content : ListedObject → ListContent
list_content obj = record {
  key = obj.key;
  last_modified = obj.object.last_modified;
  etag = obj.object.etag;
  size = length obj.object.body;
  storage_class = codes "STANDARD";
}

-- The answer to `GET /bucket` once the objects are listed.
unfoldable pub list_reply : Str → Str → ℕ → List ListedObject → Reply
unfolding list_content write_xml
list_reply bucket prefix max_keys objects =
    let truncated = ltb max_keys (length objects) in
    let shown = if truncated then take max_keys objects else objects in
    let contents = map list_content shown in
    write_xml 200 (
      list_document (record {
        name = bucket;
        prefix = prefix;
        key_count = length contents;
        max_keys = max_keys;
        is_truncated = truncated;
        contents = contents;
      }))

unfoldable pub bucket_info : ℕ → Str → BucketInfo
bucket_info now name = record { name = name; creation_date = now }

unfoldable pub write_list_buckets : ℕ → List Str → Reply
unfolding bucket_info write_xml
write_list_buckets now buckets = write_xml 200 (
    buckets_document (record {
      owner = record { id = codes "s3-rdma-server"; display_name = codes "s3-rdma-server" };
      buckets = map (bucket_info now) buckets;
    }))
