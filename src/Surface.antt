-- ===== src/Surface.antt =====
-- include/kirilock/surface.h and the first half of src/surface.c: one output's surface, its life
-- and its lock role. A pointer to a `kl_surface` is never NULL here: a function takes the struct and
-- returns it as it leaves it. Of `surf->ctx`, which `kl_surface_create` sets once, a function takes
-- the fields that it reads as arguments.
pub mod Balance
pub mod Role
pub mod Invariant
use kirilock.Base.{
  update, ℕ, zero, suc, ℤ, pos, negsuc, is_negative, Bool, true, false, Option, none, some, leb,
  ◌==◌, if◌then◌else◌,
}
use kirilock.Platform.{
  M, pure, ◌>>=◌, ◌>>◌, call, obtain, ask, calloc_surface, free_surface, wl_output_add_listener,
  wl_output_get_version, wl_output_release, wl_output_destroy, wl_compositor_create_surface,
  ext_session_lock_v1_get_lock_surface, ext_session_lock_surface_v1_add_listener,
  ext_session_lock_surface_v1_destroy, wl_surface_destroy, wl_callback_destroy,
}
use kirilock.Buffer.{Buffer, Status, success, failure, cleared, call_if_set, kl_buffer_destroy}
use kirilock.Render.{Engine, kl_render_engine_create, kl_render_engine_destroy}

abbrev pub buffer_count : ℕ
buffer_count = 3

-- `struct kl_surface`, with its address and without `link` and `ctx`. `buffers` is the array: the
-- code reads and writes it below `buffer_count` only.
pub record Surface : Type 0 where
  pub address : ℕ
  pub global_name : ℕ
  pub wl_output : Option ℕ
  pub wl_surface : Option ℕ
  pub ext_lock_surface : Option ℕ
  pub frame_callback : Option ℕ
  pub buffers : ℕ → Buffer
  pub current_buffer : ℕ
  pub width : ℕ
  pub height : ℕ
  pub scale : ℤ
  pub configured : Bool
  pub frame_pending : Bool
  pub dirty : Bool
  pub engine : Option Engine
  pub start_time_ns : ℕ
  pub last_frame_time_ns : ℕ

-- A buffer as calloc leaves it.
abbrev pub zeroed : Buffer
zeroed = record cleared { scale = pos 0 }

new_surface : ℕ → Engine → ℕ → ℕ → Surface
new_surface address engine output name = record {
  address = address;
  global_name = name;
  wl_output = some output;
  wl_surface = none;
  ext_lock_surface = none;
  frame_callback = none;
  buffers = λ _. zeroed;
  current_buffer = 0;
  width = 0;
  height = 0;
  scale = pos 1;
  configured = false;
  frame_pending = false;
  dirty = true;
  engine = some engine;
  start_time_ns = 0;
  last_frame_time_ns = 0;
}

-- From the test of the engine on.
add_engine : ℕ → ℕ → ℕ → Option Engine → M (Option Surface)
unfolding new_surface
add_engine address output name none = call (free_surface address) >> pure none
add_engine address output name (some engine) =
    call (wl_output_add_listener output) >> pure (some (new_surface address engine output name))

-- From the test of the memory on.
use_memory : ℕ → ℕ → Option ℕ → M (Option Surface)
use_memory output name none = pure none
use_memory output name (some address) = do
  engine ← kl_render_engine_create
  add_engine address output name engine

pub kl_surface_create : ℕ → ℕ → M (Option Surface)
unfolding use_memory
kl_surface_create output name = obtain calloc_surface >>= use_memory output name

-- From the test of the lock surface on; `surf` has its wl_surface, `surface`.
add_role : Surface → ℕ → Option ℕ → M (Status × Surface)
add_role surf surface none =
    call (wl_surface_destroy surface)
    >> pure (failure, record surf { wl_surface = none; ext_lock_surface = none })
add_role surf surface (some role) = do
  added ← ask (ext_session_lock_surface_v1_add_listener role)
  pure (
    (if is_negative added then failure else success),
    record surf { ext_lock_surface = some role },
  )

-- From the test of the wl_surface on.
use_wl_surface : ℕ → Surface → Option ℕ → M (Status × Surface)
use_wl_surface lock surf none = pure (failure, record surf { wl_surface = none })
use_wl_surface lock surf (some surface) = do
  role ← obtain (ext_session_lock_v1_get_lock_surface lock surface surf.wl_output)
  add_role (record surf { wl_surface = some surface }) surface role

-- From the test of `surf->ext_lock_surface`, the last argument, on.
add_lock_surface : ℕ → ℕ → Surface → Option ℕ → M (Status × Surface)
add_lock_surface lock compositor surf (some role) = pure (success, surf)
add_lock_surface lock compositor surf none = do
  surface ← obtain (wl_compositor_create_surface compositor)
  use_wl_surface lock surf surface

-- With the fields `lock` and `compositor` of the context.
pub kl_surface_attach_lock : Option ℕ → Option ℕ → Surface → M (Status × Surface)
kl_surface_attach_lock none compositor surf = pure (failure, surf)
kl_surface_attach_lock (some lock) none surf = pure (failure, surf)
kl_surface_attach_lock (some lock) (some compositor) surf =
    add_lock_surface lock compositor surf surf.ext_lock_surface

-- The loop over the array, from `i` on with `n` rounds left.
destroy_buffers : ℕ → ℕ → (ℕ → Buffer) → M (ℕ → Buffer)
destroy_buffers zero i buffers = pure buffers
destroy_buffers (suc n) i buffers = do
  b ← kl_buffer_destroy (buffers i)
  destroy_buffers n (suc i) (update buffers i b)

pub kl_surface_detach_lock : Surface → M Surface
kl_surface_detach_lock surf = do
  call_if_set wl_callback_destroy surf.frame_callback
  buffers ← destroy_buffers buffer_count 0 surf.buffers
  call_if_set ext_session_lock_surface_v1_destroy surf.ext_lock_surface
  call_if_set wl_surface_destroy surf.wl_surface
  pure (record surf {
    frame_callback = none;
    buffers = buffers;
    ext_lock_surface = none;
    wl_surface = none;
    configured = false;
    frame_pending = false;
    dirty = true;
    width = 0;
    height = 0;
    current_buffer = 0;
    start_time_ns = 0;
    last_frame_time_ns = 0;
  })

-- `version >= WL_OUTPUT_RELEASE_SINCE_VERSION`
abbrev pub can_release : ℤ → Bool
can_release (pos n) = leb 3 n
can_release (negsuc n) = false

-- The way an output is given back, here and in `kl_registry_handle_global`.
pub drop_output : ℕ → M (Unit {0})
drop_output output = do
  version ← ask (wl_output_get_version output)
  if can_release version then call (wl_output_release output) else call (wl_output_destroy output)

-- `if (surf->wl_output)`
drop_output_if_set : Option ℕ → M (Unit {0})
unfolding drop_output
drop_output_if_set none = pure tt
drop_output_if_set (some output) = drop_output output

pub kl_surface_destroy : Surface → M (Unit {0})
unfolding drop_output_if_set
kl_surface_destroy surf = do
  bare ← kl_surface_detach_lock surf
  kl_render_engine_destroy bare.engine
  drop_output_if_set bare.wl_output
  call (free_surface bare.address)
