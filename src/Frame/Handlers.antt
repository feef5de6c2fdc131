-- ===== src/Frame/Handlers.antt =====
-- The invariant of surfaces under the listeners of src/surface.c and src/buffer.c.
use kirilock.Base.{
  update, ℕ, ◌<◌, ◌≡◌, inl, inr, ℤ, is_positive, eq_ℤ, ◌&&◌, not, Bool, true, false, Bool-cases,
  Option, is_some, arith,
}
use kirilock.Platform.{Env, World, ReturnsInts}
use kirilock.Surface.{Surface, buffer_count}
use kirilock.Surface.Invariant.{Inv, AllUsable, AllUsable-update, IsUsable-at, idle-IsUsable}
use kirilock.Frame.Invariant.{kl_surface_render_frame-Inv, kl_surface_request_render-Inv}
use kirilock.Frame.{
  kl_surface_frame_handle_done, kl_surface_on_buffer_release, kl_buffer_handle_release, run_release,
  kl_output_handle_scale, kl_lock_surface_handle_configure,
}

module _ (shm : Option ℕ) (surf : Surface) (env : Env) (s : World) (ints : ReturnsInts env)
    (i : Inv surf) where
  pub frame_handle_done-Inv :
      (callback : ℕ) → Inv (kl_surface_frame_handle_done shm callback surf env s).0
  unfolding kl_surface_frame_handle_done
  frame_handle_done-Inv callback = kl_surface_render_frame-Inv shm _ env _ ints (ground arith)

  pub on_buffer_release-Inv : Inv (kl_surface_on_buffer_release shm surf env s).0
  unfolding kl_surface_on_buffer_release
  on_buffer_release-Inv = ground (arith, kl_surface_render_frame-Inv shm surf env s ints i)

  pub output_handle_scale-Inv : (factor : ℤ) → Inv (kl_output_handle_scale shm factor surf env s).0
  unfolding kl_output_handle_scale
  output_handle_scale-Inv factor =
      elim (Bool-cases (is_positive factor && not (eq_ℤ surf.scale factor))) [
        | inl e ↦ rw e (kl_surface_request_render-Inv shm _ env s ints (ground arith))
        | inr e ↦ rw e i
      ]

  -- A configure event keeps the invariant of a surface that has a lock surface. The calls return
  -- 32-bit integers.
  pub handle_configure-Inv :
      (lock_surface serial width height : ℕ)
      → is_some surf.ext_lock_surface ≡ true
      → Inv (kl_lock_surface_handle_configure shm lock_surface serial width height surf env s).0
  unfolding kl_lock_surface_handle_configure
  handle_configure-Inv lock_surface serial width height h =
      kl_surface_request_render-Inv shm _ env _ ints (ground arith)

  run_release-Inv : (set : Bool) → Inv (run_release shm surf set env s).0
  unfolding run_release
  run_release-Inv true = on_buffer_release-Inv
  run_release-Inv false = i

-- The buffer that comes back is not busy any more.
released-Inv :
    (idx : ℕ) (surf : Surface)
    → idx < buffer_count
    → Inv surf
    → Inv (record surf {
      buffers = update surf.buffers idx (record (surf.buffers idx) { busy = false });
    })
released-Inv idx surf lt i =
    let all : AllUsable surf.buffers = (i.first, i.second, i.third) in
    let usable =
      AllUsable-update surf.buffers idx _
        (idle-IsUsable (surf.buffers idx) (IsUsable-at surf.buffers idx lt all)) all in
    record {
      role = i.role;
      pending = i.pending;
      scaled = i.scaled;
      ring = i.ring;
      has_role = i.has_role;
      first = usable.0;
      second = usable.1;
      third = usable.2;
    }

-- A buffer's release keeps the invariant of its surface, with the frame that it may start. The
-- index is in the array, and the calls return 32-bit integers.
pub handle_release-Inv :
    (shm : Option ℕ) (idx : ℕ) (surf : Surface) (env : Env) (s : World)
    → idx < buffer_count
    → ReturnsInts env
    → Inv surf
    → Inv (kl_buffer_handle_release shm idx surf env s).0
unfolding kl_buffer_handle_release
handle_release-Inv shm idx surf env s lt ints i =
    run_release-Inv shm _ env s ints (released-Inv idx surf lt i) _
