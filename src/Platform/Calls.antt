-- ===== src/Platform/Calls.antt =====
-- The calls that the sources under src/ make of other libraries, and the events that libwayland
-- hands to the listeners. Handles (pointers to foreign objects, file descriptors) are numbers.
use kirilock.Base.{◌≡◌, true, ℕ, suc, ℤ, IsInt, Bool, Option, none, some, List, ◌∷◌}

-- A floating-point value, kept as the expression that computes it.
pub data Double : Type 0 where
  whole : ℕ → Double
  milli : ℕ → Double  -- a literal, in thousandths
  of_int : ℤ → Double
  pi : Double
  neg sin : Double → Double
  add mul div : Double → Double → Double

pub data CairoOperator : Type 0 where
  source over : CairoOperator

pub data PixelFormat : Type 0 where
  rgb24 argb32 : PixelFormat

-- The protocols that `kl_registry_handle_global` compares an interface's name with.
pub data Interface : Type 0 where
  output_interface compositor_interface shm_interface lock_manager_interface : Interface
  other_interface : Interface

pub data Call : Type 0 where
  -- libc and the kernel
  memfd_create : Call
  ftruncate : (fd size : ℕ) → Call
  add_seals : (fd : ℕ) → Call
  close : (fd : ℕ) → Call
  mmap : (size fd : ℕ) → Call
  munmap : (address size : ℕ) → Call
  calloc_surface calloc_engine : Call
  free_surface free_engine : (address : ℕ) → Call
  clock_gettime : Call
  errno_is_eagain : Call
  -- memory and text of auth.back
  malloc_memory calloc_memory strdup : Call
  free_memory : (address : ℕ) → Call
  pipe : Call
  close_read close_write : (pipe : ℕ) → Call
  -- PAM
  calloc_replies : (count : ℕ) → Call
  free_replies : (replies : ℕ) → Call
  pam_start pam_authenticate pam_acct_mgmt : Call
  pam_end : Call
  clear_candidate : (address : ℕ) → Call
  -- sd-bus
  sd_bus_open_system : Call
  sd_bus_get_default_device sd_bus_release sd_bus_claim : (bus : ℕ) → Call
  sd_bus_match_signal : (bus : ℕ) → Call
  sd_bus_message_read sd_bus_message_unref : (message : ℕ) → Call
  sd_bus_slot_unref : (slot : ℕ) → Call
  sd_bus_flush_close_unref : (bus : ℕ) → Call
  -- the account database
  getpwuid_r endpwent : Call
  -- cairo
  cairo_format_stride_for_width : (width : ℤ) → Call
  cairo_image_surface_create : PixelFormat → (width height : ℤ) → Call
  cairo_image_surface_create_for_data : (address : ℕ) (width height stride : ℤ) → Call
  cairo_surface_status cairo_surface_flush cairo_surface_destroy : (surface : ℕ) → Call
  cairo_create : (surface : ℕ) → Call
  cairo_status cairo_destroy cairo_identity_matrix cairo_save cairo_restore : (cr : ℕ) → Call
  cairo_paint cairo_stroke cairo_fill : (cr : ℕ) → Call
  cairo_scale cairo_translate : (cr : ℕ) (x y : Double) → Call
  cairo_set_line_width : (cr : ℕ) (width : Double) → Call
  cairo_set_source_rgb : (cr : ℕ) (r g b : Double) → Call
  cairo_set_source_rgba : (cr : ℕ) (r g b a : Double) → Call
  cairo_arc : (cr : ℕ) (x y radius from to : Double) → Call
  cairo_set_operator : (cr : ℕ) → CairoOperator → Call
  cairo_set_source : (cr pattern : ℕ) → Call
  cairo_pattern_create_for_surface : (surface : ℕ) → Call
  cairo_pattern_status cairo_pattern_destroy : (pattern : ℕ) → Call
  -- wl_display, wl_registry and the globals
  wl_display_connect : Call
  wl_display_disconnect wl_display_roundtrip wl_display_dispatch wl_display_flush :
      (display : ℕ) → Call
  wl_display_get_registry : (display : ℕ) → Call
  wl_registry_add_listener wl_registry_destroy : (registry : ℕ) → Call
  wl_registry_bind : (registry name : ℕ) → Interface → (version : ℕ) → Call
  wl_compositor_create_surface wl_compositor_destroy : (compositor : ℕ) → Call
  wl_shm_destroy : (shm : ℕ) → Call
  wl_output_add_listener wl_output_get_version : (output : ℕ) → Call
  wl_output_release wl_output_destroy : (output : ℕ) → Call
  wl_display_get_fd wl_display_prepare_read wl_display_cancel_read : (display : ℕ) → Call
  wl_display_read_events wl_display_dispatch_pending : (display : ℕ) → Call
  -- epoll
  epoll_create1 errno_is_eintr : Call
  epoll_ctl_add : (epoll fd : ℕ) → Call
  epoll_wait : (epoll : ℕ) (timeout : ℤ) → Call
  -- buffers
  wl_shm_create_pool : (shm fd : ℕ) (size : ℤ) → Call
  wl_shm_pool_create_buffer : (pool : ℕ) (width height stride : ℤ) → Call
  wl_shm_pool_destroy : (pool : ℕ) → Call
  wl_buffer_add_listener wl_buffer_destroy : (buffer : ℕ) → Call
  -- surfaces
  wl_surface_set_buffer_scale : (surface : ℕ) (scale : ℤ) → Call
  wl_surface_attach : (surface : ℕ) (buffer : Option ℕ) → Call
  wl_surface_damage : (surface : ℕ) (width height : ℤ) → Call
  wl_surface_frame wl_surface_commit wl_surface_destroy : (surface : ℕ) → Call
  wl_callback_add_listener wl_callback_destroy : (callback : ℕ) → Call
  -- ext-session-lock-v1
  ext_session_lock_manager_v1_lock ext_session_lock_manager_v1_destroy : (manager : ℕ) → Call
  ext_session_lock_v1_add_listener ext_session_lock_v1_destroy : (lock : ℕ) → Call
  ext_session_lock_v1_unlock_and_destroy : (lock : ℕ) → Call
  ext_session_lock_v1_get_lock_surface : (lock surface : ℕ) (output : Option ℕ) → Call
  ext_session_lock_surface_v1_add_listener : (lock_surface : ℕ) → Call
  ext_session_lock_surface_v1_ack_configure : (lock_surface serial : ℕ) → Call
  ext_session_lock_surface_v1_destroy : (lock_surface : ℕ) → Call

-- What a listener is called with; `surface` is the address of the `kl_surface` that the listener
-- was added with, `index` the place of the buffer in its array.
pub data Event : Type 0 where
  locked finished : Event
  global : (registry name : ℕ) → Interface → Event
  global_remove : (name : ℕ) → Event
  output_scale : (surface : ℕ) (factor : ℤ) → Event
  configure : (surface lock_surface serial width height : ℕ) → Event
  frame_done : (surface callback : ℕ) → Event
  buffer_release : (surface index : ℕ) → Event

-- One entry of the array that epoll_wait fills: its descriptor, and which bits of its `events` are set.
pub record Polled : Type 0 where
  pub fd : ℕ
  pub epollin : Bool
  pub epollhup : Bool
  pub epollerr : Bool

-- The answers of the environment to the n-th call.
pub record Env : Type 0 where
  pub pointer : ℕ → Call → Option ℕ  -- `none` for NULL, MAP_FAILED or a negative descriptor
  pub object : ℕ → Call → ℕ  -- of a constructor that never returns NULL
  pub number : ℕ → Call → ℤ
  pub clock : ℕ → Option (ℕ × ℕ)  -- seconds and nanoseconds; `none` if clock_gettime fails
  pub polled : ℕ → ℕ → Polled  -- by the place in the array
  pub wakes : ℕ → Bool  -- whether epoll_wait ever returns, with no time limit
  pub le_double : Double → Double → Bool
  pub events : ℕ → Call → List Event

-- Every `int` that a call returns has 32 bits.
abbrev pub ReturnsInts : Env → Type 0
ReturnsInts env = (n : ℕ) (c : Call) → IsInt (env.number n c)

-- No call of epoll_wait waits forever.
abbrev pub Wakes : Env → Type 0
Wakes env = (n : ℕ) → env.wakes n ≡ true

-- A call with the handle that it returned, if it returned one.
abbrev pub Entry : Type 0
Entry = Call × Option ℕ

-- How many calls there were, and which, the last first.
pub record World : Type 0 where
  pub tick : ℕ
  pub log : List Entry

abbrev pub M : Type 0 → Type 0
M A = Env → World → A × World

abbrev pub pure : {A : Type 0} → A → M A
pure a env s = (a, s)

infixl 5 ◌>>=◌ ◌>>◌
abbrev pub ◌>>=◌ : {A B : Type 0} → M A → (A → M B) → M B
◌>>=◌ m f env s = let r = m env s in f r.0 env r.1

abbrev pub ◌>>◌ : {A B : Type 0} → M A → M B → M B
◌>>◌ m k env s = let r = m env s in k env r.1

abbrev pub after : World → Call → Option ℕ → World
after s c r = record { tick = suc s.tick; log = (c, r) ∷ s.log }

-- A call whose answer is not used.
abbrev pub call : Call → M (Unit {0})
call c env s = (tt, after s c none)

-- A call that returns a handle or fails.
abbrev pub obtain : Call → M (Option ℕ)
obtain c env s = (env.pointer s.tick c, after s c (env.pointer s.tick c))

-- A call that always returns a handle.
abbrev pub make : Call → M ℕ
make c env s = (env.object s.tick c, after s c (some (env.object s.tick c)))

-- A call that returns a number.
abbrev pub ask : Call → M ℤ
ask c env s = (env.number s.tick c, after s c none)
