-- ===== src/Payloads/Files.antt =====
-- internal/inmems3/payload/loader.go: what the operating system says to the loader. An error is
-- whether errors.Is finds fs.ErrNotExist in it, and its text.
use rdma_demo.Base.{Bool, List, ◌++◌}
use rdma_demo.Base.Text.{Str}

pub record GoError : Type 0 where
  pub not_exist : Bool
  pub text : Str

pub data GoResult (A : Type 0) : Type 0 where
  ok : A → GoResult A
  err : GoError → GoResult A

-- fmt.Errorf with `%w` at its end
abbrev pub wrap_error : Str → GoError → GoError
wrap_error front e = record e { text = front ++ e.text }

-- A call of the walk's callback: with an error, after the context has ended, for a directory or a file
-- that is not regular, or for a regular file, with what ReadFile and Rel return.
pub data Visit : Type 0 where
  walk_error context_done : GoError → Visit
  skipped : Visit
  regular : GoResult Str → GoResult Str → Visit

pub record DirEntry : Type 0 where
  pub name : Str
  pub is_dir : Bool

pub record FileSystem : Type 0 where
  -- whether the path is a directory
  pub stat : Str → GoResult Bool
  pub read_dir : Str → GoResult (List DirEntry)
  -- the walk of the entry with this name in the root
  pub walk : Str → Str → List Visit
