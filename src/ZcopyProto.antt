-- ===== src/ZcopyProto.antt =====
-- pkg/rdma/zcopyproto/protocol.go: the control messages of the zero-copy protocol.
-- Package encoding/json is the argument `Json`: what json.Marshal and json.Unmarshal do with a
-- message, with the law that a message of valid UTF-8 text survives the way there and back.
pub mod Codec
use rdma_demo.Base.{
  ℕ, ◌≡◌, Bool, true, false, Option, none, some, List, [], ◌∷◌, String, if◌then◌else◌,
}
use rdma_demo.Base.Int.{ℤ, pos}
use rdma_demo.Base.Text.{Str, codes, str_eq, is_empty}

unfoldable pub op_hello_req : Str
op_hello_req = codes "hello_req"

unfoldable pub op_hello_resp : Str
op_hello_resp = codes "hello_resp"

unfoldable pub op_ensure_bucket_req : Str
op_ensure_bucket_req = codes "ensure_bucket_req"

unfoldable pub op_put_req : Str
op_put_req = codes "put_req"

unfoldable pub op_get_req : Str
op_get_req = codes "get_req"

unfoldable pub op_ack : Str
op_ack = codes "ack"

unfoldable pub op_resp_ok : Str
op_resp_ok = codes "resp_ok"

unfoldable pub op_resp_err : Str
op_resp_err = codes "resp_err"

unfoldable pub op_get_meta : Str
op_get_meta = codes "get_meta"

pub record Message : Type 0 where
  pub op : Str
  pub req_id : ℕ
  pub credits : ℤ
  pub ack : ℤ
  pub bucket : Str
  pub key : Str
  pub size : ℤ
  pub max : ℤ
  pub data_offset : Option ℤ
  pub error : Str

-- The zero value of the struct, with an operation.
abbrev pub blank : Str → Message
blank op = record {
  op = op;
  req_id = 0;
  credits = pos 0;
  ack = pos 0;
  bucket = [];
  key = [];
  size = pos 0;
  max = pos 0;
  data_offset = none;
  error = [];
}

pub data CodecError : Type 0 where
  empty_op marshal_control decode_control missing_op : CodecError

pub data Coded (A : Type 0) : Type 0 where
  ok : A → Coded A
  err : CodecError → Coded A

pub record Json : Type 1 where
  pub marshal : Message → Option Str
  pub unmarshal : Str → Option Message
  -- the messages whose texts are valid UTF-8
  pub IsUtf8 : Message → Type 0
  pub unmarshal-marshal :
      (m : Message) → IsUtf8 m → (b : Str) × (marshal m ≡ some b) × (unmarshal b ≡ some m)

unfoldable pub encode : Json → Message → Coded Str
encode json msg =
    if is_empty msg.op
    then err empty_op
    else elim (json.marshal msg) [ none ↦ err marshal_control | some b ↦ ok b ]

unfoldable pub decode : Json → Str → Coded Message
decode json payload = elim (json.unmarshal payload) [
  | none ↦ err decode_control
  | some msg ↦ if is_empty msg.op then err missing_op else ok msg
]

-- What a switch on `msg.Op` tells apart.
pub data OpKind : Type 0 where
  hello_req hello_resp ensure_bucket_req put_req get_req acks resp_ok resp_err get_meta : OpKind
  unknown : OpKind

unfoldable pub op_kind : Str → OpKind
op_kind op =
    if str_eq op op_hello_req
    then hello_req
    else if str_eq op op_hello_resp
    then hello_resp
    else if str_eq op op_ensure_bucket_req
    then ensure_bucket_req
    else if str_eq op op_put_req
    then put_req
    else if str_eq op op_get_req
    then get_req
    else if str_eq op op_ack
    then acks
    else if str_eq op op_resp_ok
    then resp_ok
    else if str_eq op op_resp_err
    then resp_err
    else if str_eq op op_get_meta
    then get_meta
    else unknown
