-- ===== src/Verbs.antt =====
-- pkg/rdma/verbs.go: the options of a verbs connection
use rdma_demo.Base.{
  ◌*◌, ◌≡◌, ◌⊎◌, inl, inr, Bool, [], ◌∷◌, length, if◌then◌else◌, arith, refl, subst, if-elim,
}
use rdma_demo.Base.Int.{ℤ, pos, ltb_ℤ, ◌≤ℤ◌, ◌<ℤ◌}
use rdma_demo.Base.Text.{Str}

abbrev pub default_frame_payload_size : ℤ
default_frame_payload_size = pos (64 * 1024)

abbrev pub default_send_queue_depth : ℤ
default_send_queue_depth = pos 64

abbrev pub default_recv_queue_depth : ℤ
default_recv_queue_depth = pos 64

abbrev pub default_inline_threshold : ℤ
default_inline_threshold = pos 0

abbrev pub default_send_signal_interval : ℤ
default_send_signal_interval = pos 1

abbrev pub default_low_cpu_send_signal_interval : ℤ
default_low_cpu_send_signal_interval = pos 16

pub record VerbsOptions : Type 0 where
  pub frame_payload_size : ℤ
  pub send_queue_depth : ℤ
  pub recv_queue_depth : ℤ
  pub inline_threshold : ℤ
  pub low_cpu : Bool
  pub send_signal_interval : ℤ
  pub shared_rw_memory : Str

pub record VerbsConfig : Type 0 where
  pub frame_payload_size : ℤ
  pub send_queue_depth : ℤ
  pub recv_queue_depth : ℤ
  pub inline_threshold : ℤ
  pub send_signal_intvl : ℤ
  pub low_cpu : Bool
  pub shared_rw_memory : Str

pub data OptionsError : Type 0 where
  frame_payload_size_negative send_queue_depth_negative recv_queue_depth_negative : OptionsError
  inline_threshold_negative send_signal_interval_negative shared_memory_small : OptionsError

pub data Normalized : Type 0 where
  config : VerbsConfig → Normalized
  bad_options : OptionsError → Normalized

-- `if given > 0 { value = given }`
abbrev pub given_or : ℤ → ℤ → ℤ
given_or given value = if ltb_ℤ (pos 0) given then given else value

-- The configuration once no option is negative.
unfoldable pub chosen : VerbsOptions → VerbsConfig
chosen o = record {
  frame_payload_size = given_or o.frame_payload_size default_frame_payload_size;
  send_queue_depth = given_or o.send_queue_depth default_send_queue_depth;
  recv_queue_depth = given_or o.recv_queue_depth default_recv_queue_depth;
  inline_threshold = given_or o.inline_threshold default_inline_threshold;
  send_signal_intvl =
      given_or o.send_signal_interval
        (if o.low_cpu then default_low_cpu_send_signal_interval else default_send_signal_interval);
  low_cpu = o.low_cpu;
  shared_rw_memory = [];
}

-- The last test of normalize, on the shared memory.
unfoldable pub with_memory : Str → VerbsConfig → Normalized
with_memory [] cfg = config cfg
with_memory (c ∷ cs) cfg =
    if ltb_ℤ (pos (length (c ∷ cs))) cfg.frame_payload_size
    then bad_options shared_memory_small
    else config (record cfg { shared_rw_memory = c ∷ cs })

unfoldable pub normalize : VerbsOptions → Normalized
normalize o =
    if ltb_ℤ o.frame_payload_size (pos 0)
    then bad_options frame_payload_size_negative
    else if ltb_ℤ o.send_queue_depth (pos 0)
    then bad_options send_queue_depth_negative
    else if ltb_ℤ o.recv_queue_depth (pos 0)
    then bad_options recv_queue_depth_negative
    else if ltb_ℤ o.inline_threshold (pos 0)
    then bad_options inline_threshold_negative
    else if ltb_ℤ o.send_signal_interval (pos 0)
    then bad_options send_signal_interval_negative
    else with_memory o.shared_rw_memory (chosen o)

chosen_bounds :
    (o : VerbsOptions)
    → pos 0 ≤ℤ o.inline_threshold
    → (pos 0 <ℤ (chosen o).frame_payload_size)
      × (pos 0 <ℤ (chosen o).send_queue_depth)
      × (pos 0 <ℤ (chosen o).recv_queue_depth)
      × (pos 0 ≤ℤ (chosen o).inline_threshold)
      × (pos 0 <ℤ (chosen o).send_signal_intvl)
unfolding chosen
chosen_bounds o h = (ground arith, ground arith, ground arith, ground arith, ground arith)

-- What a configuration promises.
pub record IsUsable (cfg : VerbsConfig) : Type 0 where
  pub frame : pos 0 <ℤ cfg.frame_payload_size
  pub sends : pos 0 <ℤ cfg.send_queue_depth
  pub receives : pos 0 <ℤ cfg.recv_queue_depth
  pub inlines : pos 0 ≤ℤ cfg.inline_threshold
  pub signals : pos 0 <ℤ cfg.send_signal_intvl
  pub memory :
      (cfg.shared_rw_memory ≡ []) ⊎ (cfg.frame_payload_size ≤ℤ pos (length cfg.shared_rw_memory))

with_memory-IsUsable :
    (memory : Str) (cfg cfg' : VerbsConfig)
    → IsUsable cfg
    → with_memory memory cfg ≡ config cfg'
    → IsUsable cfg'
unfolding with_memory
with_memory-IsUsable [] cfg cfg' u h = ground arith
with_memory-IsUsable (c ∷ cs) cfg cfg' u h =
    if-elim (λ (r : Normalized). r ≡ config cfg' → IsUsable cfg')
      (ltb_ℤ (pos (length (c ∷ cs))) cfg.frame_payload_size) (λ _ e. absurd (ground arith))
      (λ large e.
        let same : record cfg { shared_rw_memory = c ∷ cs } ≡ cfg' = ground arith in
        subst IsUsable same (record {
          frame = u.frame;
          sends = u.sends;
          receives = u.receives;
          inlines = u.inlines;
          signals = u.signals;
          memory = inr (ground arith);
        }))
      h

-- A configuration that normalize returns has a positive frame size, queue depths and signal interval,
-- an inline threshold that is not negative, and a shared memory of at least one frame, if it has one.
pub normalize-IsUsable :
    (o : VerbsOptions) (cfg : VerbsConfig) → normalize o ≡ config cfg → IsUsable cfg
unfolding normalize
normalize-IsUsable o cfg h =
    let (frame, sends, receives, inlines, signals) = chosen_bounds o (ground arith) in
    with_memory-IsUsable o.shared_rw_memory (chosen o) cfg
      (record {
        frame = frame;
        sends = sends;
        receives = receives;
        inlines = inlines;
        signals = signals;
        memory = inl (unfold chosen in refl);
      })
      (ground arith)
