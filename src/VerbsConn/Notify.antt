-- ===== src/VerbsConn/Notify.antt =====
-- pkg/rdma/verbs_linux_cgo.go: the frame that announces an RDMA write, and where a payload lies in the
-- shared memory
use rdma_demo.Base.{
  ℕ, zero, suc, ◌+◌, ◌-◌, ◌*◌, ◌/◌, ◌%◌, ◌^◌, ◌<◌, ◌≤◌, ◌≡◌, ◌≢◌, ◌↔◌, Bool, true, false, not, ◌||◌,
  ◌&&◌, Option, none, some, [], ◌∷◌, ◌++◌, length, take, drop, ltb, ◌==◌, if◌then◌else◌, arith,
}
use rdma_demo.Base.Int.{ℤ, pos, negsuc, full_range, half_range}
use rdma_demo.Base.Text.{Str, is_empty}
use rdma_demo.VerbsConn.Device.{Buffer}

abbrev pub rdma_write_notify_magic : ℕ
rdma_write_notify_magic = 0x5244574e4f544659

abbrev pub rdma_write_notify_kind : ℕ
rdma_write_notify_kind = 1

abbrev pub rdma_write_notify_kind_at : ℕ
rdma_write_notify_kind_at = 2

abbrev pub rdma_write_notify_size : ℕ
rdma_write_notify_size = 20

-- binary.LittleEndian of any number of bytes
unfoldable pub little_endian : Str → ℕ
little_endian [] = 0
little_endian (b ∷ bs) = b + 256 * little_endian bs

-- The bytes of a number, the lowest first.
unfoldable pub to_little_endian : ℕ → ℕ → Str
to_little_endian zero n = []
to_little_endian (suc k) n = n % 256 ∷ to_little_endian k (n / 256)

pub record WriteNotify : Type 0 where
  pub length_ : ℕ
  pub token : ℕ
  pub at_ : Bool

-- The struct go_rdma_rw_notify, packed, on a little-endian machine.
unfoldable pub notify_frame : WriteNotify → Str
unfolding to_little_endian
notify_frame n =
    to_little_endian 8 rdma_write_notify_magic
    ++ (to_little_endian 4 (if n.at_ then rdma_write_notify_kind_at else rdma_write_notify_kind)
        ++ (to_little_endian 4 n.length_ ++ to_little_endian 4 n.token))

unfoldable pub parse_write_notify_frame : Str → Option WriteNotify
unfolding little_endian
parse_write_notify_frame frame =
    let magic = little_endian (take 8 frame) in
    let kind = little_endian (take 4 (drop 8 frame)) in
    if not (length frame == rdma_write_notify_size)
    then none
    else if not (magic == rdma_write_notify_magic)
    then none
    else if not (kind == rdma_write_notify_kind) && not (kind == rdma_write_notify_kind_at)
    then none
    else some (record {
      length_ = little_endian (take 4 (drop 12 frame));
      token = little_endian (take 4 (drop 16 frame));
      at_ = kind == rdma_write_notify_kind_at;
    })

-- int of a 64-bit word
abbrev pub to_int : ℕ → ℤ
to_int n = if ltb n half_range then pos n else negsuc (full_range - 1 - n)

-- sharedMemoryOffset: -1 if the payload is not in the shared memory. A difference of lengths that is
-- negative wraps around when it becomes a uintptr.
unfoldable pub shared_memory_offset : Buffer → Buffer → ℤ
shared_memory_offset shared payload =
    let limit = (length shared.bytes + full_range - length payload.bytes) % full_range in
    let rel = payload.base - shared.base in
    if is_empty payload.bytes || is_empty shared.bytes
    then negsuc 0
    else if ltb payload.base shared.base
    then negsuc 0
    else if ltb limit rel
    then negsuc 0
    else to_int rel

parse_fields :
    (l t : ℕ) (at' : Bool)
    → l < 2 ^ 32
    → t < 2 ^ 32
    → parse_write_notify_frame (notify_frame (record { length_ = l; token = t; at_ = at' }))
      ≡ some (record { length_ = l; token = t; at_ = at' })
unfolding parse_write_notify_frame notify_frame
parse_fields l t true h k = ground arith
parse_fields l t false h k = ground arith

-- What is announced by a frame is read back, if its length and its slot or offset are 32-bit words.
pub parse-notify_frame :
    (n : WriteNotify)
    → n.length_ < 2 ^ 32
    → n.token < 2 ^ 32
    → parse_write_notify_frame (notify_frame n) ≡ some n
parse-notify_frame n h k = parse_fields n.length_ n.token n.at_ h k

-- A frame that does not begin with the first byte of the mark, such as a message in JSON, announces no
-- write.
pub parse_other :
    (c : ℕ) (rest : Str) → c < 256 → c ≢ 0x59 → parse_write_notify_frame (c ∷ rest) ≡ none
unfolding parse_write_notify_frame
parse_other c rest small ne = ground arith

-- For a payload that is not empty and not longer than the shared memory, which is below 2⁶³ bytes,
-- sharedMemoryOffset is exact: it is an offset exactly if the payload lies in the shared memory at that
-- offset, whole.
pub shared_memory_offset_lem :
    (shared payload : Buffer) (o : ℕ)
    → length shared.bytes < half_range
    → 0 < length payload.bytes
    → length payload.bytes ≤ length shared.bytes
    → (shared_memory_offset shared payload ≡ pos o)
      ↔ ((payload.base ≡ shared.base + o) × (o + length payload.bytes ≤ length shared.bytes))
unfolding shared_memory_offset
shared_memory_offset_lem shared payload o small some_bytes fits = (ground arith, ground arith)

-- A payload that is longer than the shared memory and lies above its start is given an offset in it.
pub shared_memory_offset_long :
    (shared payload : Buffer) (rel : ℕ)
    → 0 < length shared.bytes
    → length shared.bytes < length payload.bytes
    → length payload.bytes < half_range
    → payload.base ≡ shared.base + rel
    → rel < half_range
    → shared_memory_offset shared payload ≡ pos rel
unfolding shared_memory_offset
shared_memory_offset_long shared payload rel some_bytes longer small above low = ground arith
