-- ===== src/Frame/Account.antt =====
-- The account of the listeners of a surface in src/surface.c and src/buffer.c.
use kirilock.Base.{
  update, ℕ, ◌<◌, ◌≡◌, refl, ℤ, is_positive, eq_ℤ, ◌&&◌, not, Bool, true, false, Bool-cases, inl,
  inr, Option, none, some, arith,
}
use kirilock.Platform.{
  Env, World, Weight, Balance, after, wl_callback_destroy,
  ext_session_lock_surface_v1_ack_configure,
}
use kirilock.Buffer.Balance.{holds_buffer-busy}
use kirilock.Surface.{Surface, buffer_count}
use kirilock.Surface.Balance.{holds_buffers-update, holds_surface}
use kirilock.Frame.Balance.{
  Waits, kl_surface_render_frame-Balance, kl_surface_request_render-Balance,
}
use kirilock.Frame.{
  kl_surface_frame_handle_done, kl_surface_on_buffer_release, run_release, kl_buffer_handle_release,
  kl_output_handle_scale, kl_lock_surface_handle_configure,
}

module _ (w : Weight) (shm : Option ℕ) (surf : Surface) (env : Env) (s : World)
    (k : Waits surf) where
  on_buffer_release-Balance :
      let r = kl_surface_on_buffer_release shm surf env s in
      Balance w s (holds_surface w surf) r.1 (holds_surface w r.0)
  unfolding kl_surface_on_buffer_release
  on_buffer_release-Balance =
      elim (Bool-cases (surf.dirty && not surf.frame_pending && surf.configured)) [
        | inl e ↦ rw e (kl_surface_render_frame-Balance w shm surf env s k)
        | inr e ↦ rw e (omega arith)
      ]

  run_release-Balance :
      (set : Bool)
      → let r = run_release shm surf set env s in
        Balance w s (holds_surface w surf) r.1 (holds_surface w r.0)
  unfolding run_release
  run_release-Balance true = on_buffer_release-Balance
  run_release-Balance false = omega arith

  pub output_handle_scale-Balance :
      (factor : ℤ)
      → let r = kl_output_handle_scale shm factor surf env s in
        Balance w s (holds_surface w surf) r.1 (holds_surface w r.0)
  unfolding kl_output_handle_scale
  output_handle_scale-Balance factor =
      elim (Bool-cases (is_positive factor && not (eq_ℤ surf.scale factor))) [
        | inl e ↦ rw e (
            kl_surface_request_render-Balance w shm (record surf { scale = factor; dirty = true })
              env s k)
        | inr e ↦ rw e (omega arith)
      ]

  pub handle_configure-Balance :
      (lock_surface serial width height : ℕ)
      → let r = kl_lock_surface_handle_configure shm lock_surface serial width height surf env s in
        Balance w s (holds_surface w surf) r.1 (holds_surface w r.0)
  unfolding kl_lock_surface_handle_configure
  handle_configure-Balance lock_surface serial width height = omega (
    arith,
    kl_surface_request_render-Balance w shm
        (record surf { width = width; height = height; configured = true }) env
        (after s (ext_session_lock_surface_v1_ack_configure lock_surface serial) none) k,
  )

  -- When the frame callback that a surface waits for fires, it is destroyed and the account of the
  -- surface is kept, with the frame that is drawn next. A frame was pending exactly if there was a
  -- frame callback.
  pub frame_handle_done-Balance :
      (p : ℕ)
      → surf.frame_callback ≡ some p
      → let r = kl_surface_frame_handle_done shm p surf env s in
        Balance w s (holds_surface w surf) r.1 (holds_surface w r.0)
  unfolding kl_surface_frame_handle_done
  frame_handle_done-Balance p e = rw e (
      omega (
        arith,
        kl_surface_render_frame-Balance w shm
            (record surf { frame_callback = none; frame_pending = false }) env
            (after s (wl_callback_destroy p) none) refl,
      ))

pub handle_release-Balance :
    (w : Weight) (shm : Option ℕ) (idx : ℕ) (surf : Surface) (env : Env) (s : World)
    → idx < buffer_count
    → Waits surf
    → let r = kl_buffer_handle_release shm idx surf env s in
      Balance w s (holds_surface w surf) r.1 (holds_surface w r.0)
unfolding kl_buffer_handle_release
handle_release-Balance w shm idx surf env s lt k =
    let b = record (surf.buffers idx) { busy = false } in
    let released = record surf { buffers = update surf.buffers idx b } in
    omega (
      arith,
      holds_buffer-busy w (surf.buffers idx) false,
      holds_buffers-update w surf.buffers idx b lt,
      run_release-Balance w shm released env s k b.on_release,
    )
