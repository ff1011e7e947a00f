-- ===== src/RdmaApi/Paths.antt =====
-- internal/s3rdmaserver/s3api/handler.go: SplitBucketAndKey of the RDMA server
use rdma_demo.Base.{Option, none, some, [], if◌then◌else◌}
use rdma_demo.Base.Text.{Str, is_empty}
use rdma_demo.S3Api.Routing.{trim_slash, split_slash, path_unescape}

pub data PathError : Type 0 where
  missing_bucket invalid_bucket_path invalid_key_path : PathError

pub data SplitPath : Type 0 where
  at_path : Str → Str → SplitPath
  bad_path : PathError → SplitPath

unfoldable pub split_key : Str → Option Str → SplitPath
split_key bucket none = at_path bucket []
split_key bucket (some part) = elim (path_unescape part) [
  | none ↦ bad_path invalid_key_path
  | some key ↦ at_path bucket key
]

unfoldable pub split_parts : Str × Option Str → SplitPath
unfolding split_key
split_parts (first, rest) = elim (path_unescape first) [
  | none ↦ bad_path invalid_bucket_path
  | some bucket ↦ if is_empty bucket then bad_path missing_bucket else split_key bucket rest
]

unfoldable pub split_bucket_and_key : Str → SplitPath
unfolding split_parts
split_bucket_and_key path =
    let trimmed = trim_slash path in
    if is_empty trimmed then bad_path missing_bucket else split_parts (split_slash trimmed)
