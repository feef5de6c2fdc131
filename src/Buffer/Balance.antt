-- ===== src/Buffer/Balance.antt =====
-- The account of `kl_buffer_create` and `kl_buffer_destroy` of src/buffer.c.
use kirilock.Base.{ℕ, ◌+◌, ◌≡◌, refl, ℤ, to_i32, to_u32, Bool, Option, none, some, arith}
use kirilock.Platform.{
  cairo_format_stride_for_width, after, Env, World, Weight, Balance, held, mapping, descriptor,
  buffer, cairo_surface, cairo_context, pool,
}
use kirilock.Buffer.{
  physical, geometry, Buffer, Geometry, kl_buffer_destroy, kl_buffer_allocate_shm_file, fill_buffer,
  create_wl_buffer, use_pool, use_address, use_fd, create_sized, use_stride, kl_buffer_create,
  cleared, kl_buffer_prepare, kl_buffer_flush,
}

-- What a buffer holds, by weight.
pub holds_buffer : Weight → Buffer → ℕ
holds_buffer w b =
    held (λ p. w (cairo_context p)) b.cr
    + held (λ p. w (cairo_surface p)) b.cairo
    + held (λ p. w (buffer p)) b.wl_buffer
    + held (λ p. w (mapping p b.size)) b.pixels

pub kl_buffer_destroy-Balance :
    (w : Weight) (buf : Buffer) (env : Env) (s : World)
    → Balance w s (holds_buffer w buf) (kl_buffer_destroy buf env s).1 0
unfolding holds_buffer kl_buffer_destroy
kl_buffer_destroy-Balance w buf env s = ground arith

allocate-Balance :
    (w : Weight) (size : ℕ) (env : Env) (s : World)
    → Balance w s 0
        (kl_buffer_allocate_shm_file size env s).1
        (held (λ fd. w (descriptor fd)) (kl_buffer_allocate_shm_file size env s).0)
unfolding kl_buffer_allocate_shm_file
allocate-Balance w size env s = ground arith

fill_buffer-Balance :
    (w : Weight) (g : Geometry) (address : ℕ) (cb : Bool) (ud : Option ℕ) (buf : Buffer) (b : ℕ)
    (env : Env) (s : World)
    → buf.pixels ≡ none
    → let r = fill_buffer g address cb ud buf b env s in
      Balance w s (holds_buffer w buf + w (mapping address g.size)) r.1 (holds_buffer w r.0.1)
unfolding holds_buffer fill_buffer kl_buffer_destroy
fill_buffer-Balance w g address cb ud buf b env s h = ground arith

-- A buffer with nothing in it: as calloc or `kl_buffer_destroy` leaves it.
pub record IsEmpty (b : Buffer) : Type 0 where
  pub no_wl_buffer : b.wl_buffer ≡ none
  pub no_pixels : b.pixels ≡ none
  pub no_cairo : b.cairo ≡ none
  pub no_cr : b.cr ≡ none

module _ (w : Weight) (g : Geometry) (cb : Bool) (ud : Option ℕ) (buf : Buffer)
    (v : IsEmpty buf) where
  create_wl_buffer-Balance :
      (address pl : ℕ) (env : Env) (s : World)
      → let r = create_wl_buffer g address cb ud buf pl env s in
        Balance w s (w (pool pl) + w (mapping address g.size)) r.1 (holds_buffer w r.0.1)
  unfolding holds_buffer create_wl_buffer kl_buffer_destroy
  create_wl_buffer-Balance address pl env s = ground arith

  use_pool-Balance :
      (address fd : ℕ) (p : Option ℕ) (env : Env) (s : World)
      → let r = use_pool g address cb ud buf p env s in
        Balance w s
          (held (λ q. w (pool q)) p + w (mapping address g.size))
          r.1
          (holds_buffer w r.0.1)
  unfolding holds_buffer use_pool
  use_pool-Balance address fd none env s = ground arith
  use_pool-Balance address fd (some p) env s = create_wl_buffer-Balance address p env s

  use_address-Balance :
      (shm fd : ℕ) (p : Option ℕ) (env : Env) (s : World)
      → let r = use_address shm g fd cb ud buf p env s in
        Balance w s
          (w (descriptor fd) + held (λ q. w (mapping q g.size)) p)
          r.1
          (holds_buffer w r.0.1)
  unfolding holds_buffer use_address
  use_address-Balance shm fd none env s = ground arith
  use_address-Balance shm fd (some p) env s = grind (arith, use_pool-Balance)

  use_fd-Balance :
      (shm : ℕ) (p : Option ℕ) (env : Env) (s : World)
      → let r = use_fd shm g cb ud buf p env s in
        Balance w s (held (λ q. w (descriptor q)) p) r.1 (holds_buffer w r.0.1)
  unfolding holds_buffer use_fd
  use_fd-Balance shm none env s = ground arith
  use_fd-Balance shm (some fd) env s = grind (arith, use_address-Balance)

  create_sized-Balance :
      (shm : ℕ) (env : Env) (s : World)
      → let r = create_sized shm g cb ud buf env s in Balance w s 0 r.1 (holds_buffer w r.0.1)
  unfolding holds_buffer create_sized
  create_sized-Balance shm env s = grind (arith, use_fd-Balance, allocate-Balance)

use_stride-Balance :
    (w : Weight) (shm width height : ℕ) (scale : ℤ) (cb : Bool) (ud : Option ℕ) (buf : Buffer)
    (stride : ℤ) (env : Env) (s : World)
    → IsEmpty buf
    → let r = use_stride shm width height scale cb ud buf stride env s in
      Balance w s 0 r.1 (holds_buffer w r.0.1)
unfolding holds_buffer use_stride
use_stride-Balance w shm width height scale cb ud buf stride env s v = ground (
  arith,
  create_sized-Balance w (geometry width height scale (to_u32 stride)) cb ud buf v shm env s,
)

pub kl_buffer_create-Balance :
    (w : Weight) (shm : Option ℕ) (buf : Buffer) (width height : ℕ) (scale : ℤ) (cb : Bool)
    (ud : Option ℕ) (env : Env) (s : World)
    → IsEmpty buf
    → let r = kl_buffer_create shm buf width height scale cb ud env s in
      Balance w s 0 r.1 (holds_buffer w r.0.1)
unfolding holds_buffer kl_buffer_create
kl_buffer_create-Balance w none buf width height scale cb ud env s v = ground arith
kl_buffer_create-Balance w (some shm) buf width height scale cb ud env s v =
    let c = cairo_format_stride_for_width (to_i32 (physical width scale)) in
    ground (
      arith,
      use_stride-Balance w shm width height scale cb ud buf (env.number s.tick c) env
          (after s c none) v,
    )

pub holds_buffer-busy :
    (w : Weight) (b : Buffer) (busy : Bool)
    → holds_buffer w (record b { busy = busy }) ≡ holds_buffer w b
unfolding holds_buffer
holds_buffer-busy w b busy = refl

pub holds_buffer-IsEmpty : (w : Weight) (b : Buffer) → IsEmpty b → holds_buffer w b ≡ 0
unfolding holds_buffer
holds_buffer-IsEmpty w b v = ground arith

pub kl_buffer_destroy-cleared :
    (buf : Buffer) (env : Env) (s : World) → (kl_buffer_destroy buf env s).0 ≡ cleared
unfolding kl_buffer_destroy
kl_buffer_destroy-cleared buf env s = refl

pub cleared-IsEmpty : IsEmpty cleared
cleared-IsEmpty = record { no_wl_buffer = refl; no_pixels = refl; no_cairo = refl; no_cr = refl }

pub kl_buffer_prepare-Balance :
    (w : Weight) (b : Buffer) (env : Env) (s : World)
    → Balance w s 0 (kl_buffer_prepare b env s).1 0
unfolding kl_buffer_prepare
kl_buffer_prepare-Balance w b env s = ground arith

pub kl_buffer_flush-Balance :
    (w : Weight) (b : Buffer) (env : Env) (s : World) → Balance w s 0 (kl_buffer_flush b env s).1 0
unfolding kl_buffer_flush
kl_buffer_flush-Balance w b env s = ground arith
