-- ===== src/Buffer.antt =====
-- src/buffer.c and include/kirilock/buffer.h: a shared-memory pixel buffer with its wl_buffer and
-- its cairo surface. A pointer to a `kl_buffer` is never NULL here: a function takes the struct and
-- returns it as it leaves it.
pub mod Balance
pub mod Result
use kirilock.Base.{
  ℕ, ◌*◌, ◌-◌, ◌/◌, ◌%◌, ◌^◌, ℤ, pos, is_negative, is_positive, eq_ℤ, to_u32, to_i32, Bool, false,
  not, ◌||◌, ◌&&◌, Option, none, some, ltb, ◌==◌, if◌then◌else◌,
}
use kirilock.Platform.{
  M, pure, ◌>>=◌, ◌>>◌, call, obtain, make, ask, of_int, memfd_create, ftruncate, add_seals, close,
  mmap, munmap, cairo_format_stride_for_width, cairo_image_surface_create_for_data,
  cairo_surface_status, cairo_surface_flush, cairo_surface_destroy, cairo_create, cairo_status,
  cairo_destroy, cairo_identity_matrix, cairo_scale, wl_shm_create_pool, wl_shm_pool_create_buffer,
  wl_shm_pool_destroy, wl_buffer_add_listener, wl_buffer_destroy, Call,
}

-- The return values 0 and -1.
pub data Status : Type 0 where
  success failure : Status

-- `struct kl_buffer`. `pixels` is the field `data`; `busy` is its int as a truth value. The only
-- release callback of the program is `kl_surface_on_buffer_release`: `on_release` says whether it
-- is set, and `user_data` is the address of the surface that it is called with.
pub record Buffer : Type 0 where
  pub wl_buffer : Option ℕ
  pub pixels : Option ℕ
  pub size : ℕ
  pub width : ℕ
  pub height : ℕ
  pub scale : ℤ
  pub stride : ℕ
  pub busy : Bool
  pub cairo : Option ℕ  -- the field `cairo_surface`
  pub cr : Option ℕ
  pub on_release : Bool
  pub user_data : Option ℕ

-- `if (p) { f(p); }`, where the caller clears the pointer.
abbrev pub call_if_set : (ℕ → Call) → Option ℕ → M (Unit {0})
call_if_set f none = pure tt
call_if_set f (some p) = call (f p)

-- What `kl_buffer_destroy` leaves.
abbrev pub cleared : Buffer
cleared = record {
  wl_buffer = none;
  pixels = none;
  size = 0;
  width = 0;
  height = 0;
  scale = pos 1;
  stride = 0;
  busy = false;
  cairo = none;
  cr = none;
  on_release = false;
  user_data = none;
}

pub kl_buffer_destroy : Buffer → M Buffer
kl_buffer_destroy buf = do
  call_if_set cairo_destroy buf.cr
  call_if_set cairo_surface_destroy buf.cairo
  call_if_set wl_buffer_destroy buf.wl_buffer
  call_if_set (λ p. munmap p buf.size) buf.pixels
  pure cleared

seal_shm_file : ℕ → ℕ → M (Option ℕ)
seal_shm_file size fd = do
  truncated ← ask (ftruncate fd size)
  if is_negative truncated then (call (close fd) >> pure none) else (do
    sealed ← ask (add_seals fd)
    if is_negative sealed then (call (close fd) >> pure none) else pure (some fd))

kl_buffer_allocate_shm_file : ℕ → M (Option ℕ)
unfolding seal_shm_file
kl_buffer_allocate_shm_file size =
    if size == 0
    then pure none
    else (obtain memfd_create >>= elim [ none ↦ pure none | some fd ↦ seal_shm_file size fd ])

-- The sizes that `kl_buffer_create` computes from its arguments.
pub record Geometry : Type 0 where
  pub width : ℕ
  pub height : ℕ
  pub scale : ℤ
  pub phys_width : ℕ
  pub phys_height : ℕ
  pub stride : ℕ
  pub size : ℕ

abbrev pub size_max : ℕ
size_max = 2 ^ 64 - 1

-- `n * (uint32_t)scale` in 32 bits.
abbrev pub physical : ℕ → ℤ → ℕ
physical n scale = n * to_u32 scale % 2 ^ 32

abbrev pub geometry : ℕ → ℕ → ℤ → ℕ → Geometry
geometry width height scale stride = record {
  width = width;
  height = height;
  scale = scale;
  phys_width = physical width scale;
  phys_height = physical height scale;
  stride = stride;
  size = stride * physical height scale % 2 ^ 64;
}

-- The end of `kl_buffer_create`: the fields are set and the listener is added.
fill_buffer : Geometry → ℕ → Bool → Option ℕ → Buffer → ℕ → M (Status × Buffer)
fill_buffer g address on_release user_data buf wl_buffer =
    let filled = record buf {
      pixels = some address;
      size = g.size;
      width = g.width;
      height = g.height;
      scale = g.scale;
      stride = g.stride;
      busy = false;
      on_release = on_release;
      user_data = user_data;
    } in
    do
      added ← ask (wl_buffer_add_listener wl_buffer)
      if is_negative added
          then (kl_buffer_destroy filled >>= λ b. pure (failure, b))
          else pure (success, filled)

create_context : Geometry → ℕ → Bool → Option ℕ → Buffer → ℕ → ℕ → M (Status × Buffer)
unfolding fill_buffer
create_context g address on_release user_data buf wl_buffer cairo = do
  cr ← make (cairo_create cairo)
  status ← ask (cairo_status cr)
  if eq_ℤ status (pos 0)
      then fill_buffer g address on_release user_data (record buf { cr = some cr }) wl_buffer
      else (do
        call (cairo_destroy cr)
        call (cairo_surface_destroy cairo)
        call (wl_buffer_destroy wl_buffer)
        call (munmap address g.size)
        pure (failure, record buf { cr = none; cairo = none; wl_buffer = none }))

create_image : Geometry → ℕ → Bool → Option ℕ → Buffer → ℕ → M (Status × Buffer)
unfolding create_context
create_image g address on_release user_data buf wl_buffer = do
  cairo ← make (
      cairo_image_surface_create_for_data address (to_i32 g.phys_width) (to_i32 g.phys_height)
        (to_i32 g.stride))
  status ← ask (cairo_surface_status cairo)
  if eq_ℤ status (pos 0)
      then create_context g address on_release user_data (record buf { cairo = some cairo })
          wl_buffer cairo
      else (do
        call (wl_buffer_destroy wl_buffer)
        call (munmap address g.size)
        pure (failure, record buf { cairo = some cairo; wl_buffer = none }))

create_wl_buffer : Geometry → ℕ → Bool → Option ℕ → Buffer → ℕ → M (Status × Buffer)
unfolding create_image
create_wl_buffer g address on_release user_data buf pool = do
  wl_buffer ← obtain (
      wl_shm_pool_create_buffer pool (to_i32 g.phys_width) (to_i32 g.phys_height) (to_i32 g.stride))
  call (wl_shm_pool_destroy pool)
  elim wl_buffer [
    | none ↦ call (munmap address g.size) >> pure (failure, record buf { wl_buffer = none })
    | some b ↦ create_image g address on_release user_data (record buf { wl_buffer = some b }) b
  ]

-- From the test of the result of wl_shm_create_pool on.
use_pool : Geometry → ℕ → Bool → Option ℕ → Buffer → Option ℕ → M (Status × Buffer)
use_pool g address on_release user_data buf none =
    call (munmap address g.size) >> pure (failure, buf)
use_pool g address on_release user_data buf (some pool) =
    create_wl_buffer g address on_release user_data buf pool

-- From the test of the result of mmap on.
use_address : ℕ → Geometry → ℕ → Bool → Option ℕ → Buffer → Option ℕ → M (Status × Buffer)
use_address shm g fd on_release user_data buf none = call (close fd) >> pure (failure, buf)
use_address shm g fd on_release user_data buf (some address) = do
  pool ← obtain (wl_shm_create_pool shm fd (to_i32 g.size))
  call (close fd)
  use_pool g address on_release user_data buf pool

-- From the test of the file descriptor on.
use_fd : ℕ → Geometry → Bool → Option ℕ → Buffer → Option ℕ → M (Status × Buffer)
use_fd shm g on_release user_data buf none = pure (failure, buf)
use_fd shm g on_release user_data buf (some fd) = do
  address ← obtain (mmap g.size fd)
  use_address shm g fd on_release user_data buf address

create_sized : ℕ → Geometry → Bool → Option ℕ → Buffer → M (Status × Buffer)
create_sized shm g on_release user_data buf =
    if ltb (size_max / g.stride) g.phys_height
    then pure (failure, buf)
    else (do fd ← kl_buffer_allocate_shm_file g.size; use_fd shm g on_release user_data buf fd)

-- From the test of the stride on.
use_stride : ℕ → ℕ → ℕ → ℤ → Bool → Option ℕ → Buffer → ℤ → M (Status × Buffer)
use_stride shm width height scale on_release user_data buf stride =
    if is_positive stride
    then create_sized shm (geometry width height scale (to_u32 stride)) on_release user_data buf
    else pure (failure, buf)

pub kl_buffer_create : Option ℕ → Buffer → ℕ → ℕ → ℤ → Bool → Option ℕ → M (Status × Buffer)
kl_buffer_create none buf width height scale on_release user_data = pure (failure, buf)
kl_buffer_create (some shm) buf width height scale on_release user_data =
    if width == 0 || height == 0 || not (is_positive scale) then pure (failure, buf) else (do
      stride ← ask (cairo_format_stride_for_width (to_i32 (physical width scale)))
      use_stride shm width height scale on_release user_data buf stride)

-- `cairo_scale` only from a scale of 2 on.
pub kl_buffer_prepare : Buffer → M (Unit {0})
kl_buffer_prepare buf = elim buf.cr [
  | none ↦ pure tt
  | some cr ↦ do
    call (cairo_identity_matrix cr)
    if is_positive buf.scale && not (eq_ℤ buf.scale (pos 1))
        then call (cairo_scale cr (of_int buf.scale) (of_int buf.scale))
        else pure tt
]

pub kl_buffer_flush : Buffer → M (Unit {0})
kl_buffer_flush buf = call_if_set cairo_surface_flush buf.cairo
