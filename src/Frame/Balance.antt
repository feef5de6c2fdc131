-- ===== src/Frame/Balance.antt =====
-- The account of a frame of src/surface.c.
use kirilock.Base.{
  ◌||◌, ◌&&◌, not, ℕ, ◌<◌, ◌≡◌, ap, ◌∙◌, true, Bool-cases, inl, inr, Option, none, some, is_some,
  arith, ◌==◌,
}
use kirilock.Platform.{Env, World, Weight, Balance}
use kirilock.Buffer.{
  Status, success, failure, cleared, kl_buffer_create, kl_buffer_destroy, kl_buffer_prepare,
}
use kirilock.Buffer.Balance.{
  kl_buffer_create-Balance, kl_buffer_destroy-Balance, kl_buffer_destroy-cleared, cleared-IsEmpty,
  holds_buffer-busy, kl_buffer_prepare-Balance, kl_buffer_flush-Balance,
}
use kirilock.Render.{kl_render_engine_draw}
use kirilock.Render.Balance.{kl_render_engine_draw-Balance}
use kirilock.Surface.{Surface, buffer_count}
use kirilock.Surface.Balance.{holds_buffers-update, holds_surface}
use kirilock.Frame.Keep.{fit_buffer-Keeps, draw_buffer-Keeps}
use kirilock.Frame.Ring.{FirstFree, get_free_buffer-FirstFree}
use kirilock.Frame.{
  kl_surface_get_free_buffer, kl_surface_request_render, draw_and_present, fit_buffer, fits,
  draw_buffer, present, render_buffer, render_on, kl_surface_render_frame, stamp, elapsed_sec,
  kl_get_time_ns,
}

fit_buffer-Balance :
    (w : Weight) (shm : Option ℕ) (surf : Surface) (idx : ℕ) (env : Env) (s : World)
    → idx < buffer_count
    → let r = fit_buffer shm surf idx env s in
      Balance w s (holds_surface w surf) r.1 (holds_surface w r.0.1)
unfolding fit_buffer
fit_buffer-Balance w shm surf idx env s h = elim (Bool-cases (fits surf (surf.buffers idx))) [
  | inl e ↦ rw e (omega arith)
  | inr e ↦
      let (b, t) = kl_buffer_destroy (surf.buffers idx) env s in
      let (r, u) =
        kl_buffer_create shm cleared surf.width surf.height surf.scale true (some surf.address) env
          t in
      rw (e, kl_buffer_destroy-cleared (surf.buffers idx) env s)
        (omega (
          arith,
          kl_buffer_destroy-Balance w (surf.buffers idx) env s,
          kl_buffer_create-Balance w shm cleared surf.width surf.height surf.scale true
              (some surf.address) env t cleared-IsEmpty,
          holds_buffers-update w surf.buffers idx r.1 h,
        ))
]

draw_buffer-Balance :
    (w : Weight) (surf : Surface) (idx : ℕ) (env : Env) (s : World)
    → idx < buffer_count
    → let r = draw_buffer surf idx env s in
      Balance w s (holds_surface w surf) r.1 (holds_surface w r.0)
unfolding draw_buffer
draw_buffer-Balance w surf idx env s h =
    let b = surf.buffers idx in
    let (now, t) = kl_get_time_ns env s in
    let timed = stamp surf now in
    let (_, u) = kl_buffer_prepare b env t in
    let (e, v) =
      kl_render_engine_draw surf.engine b.cr surf.width surf.height surf.scale (elapsed_sec timed)
        env u in
    omega (
      arith,
      kl_buffer_prepare-Balance w b env t,
      kl_render_engine_draw-Balance w surf.engine b.cr surf.width surf.height surf.scale
          (elapsed_sec timed) env u,
      kl_buffer_flush-Balance w b env v,
      holds_buffer-busy w b true,
      holds_buffers-update w surf.buffers idx (record b { busy = true }) h,
    )

present-Balance :
    (w : Weight) (p : ℕ) (surf : Surface) (idx : ℕ) (env : Env) (s : World)
    → surf.frame_callback ≡ none
    → let r = present p surf idx env s in
      Balance w s (holds_surface w surf) r.1 (holds_surface w r.0)
unfolding present
present-Balance w p surf idx env s h = ground arith

draw_and_present-Balance :
    (w : Weight) (p idx : ℕ) (r : Status × Surface) (env : Env) (s : World)
    → idx < buffer_count
    → r.1.frame_callback ≡ none
    → let u = draw_and_present p idx r env s in
      Balance w s (holds_surface w r.1) u.1 (holds_surface w u.0)
unfolding draw_and_present
draw_and_present-Balance w p idx (failure, surf) env s h k = omega arith
draw_and_present-Balance w p idx (success, surf) env s h k =
    let (drawn, t) = draw_buffer surf idx env s in
    omega (
      arith,
      draw_buffer-Balance w surf idx env s h,
      present-Balance w p drawn idx env t ((draw_buffer-Keeps surf idx env s).same_callback ∙ k),
    )

render_buffer-Balance :
    (w : Weight) (shm : Option ℕ) (p : ℕ) (surf : Surface) (idx : ℕ) (env : Env) (s : World)
    → idx < buffer_count
    → surf.frame_callback ≡ none
    → let r = render_buffer shm p surf (some idx) env s in
      Balance w s (holds_surface w surf) r.1 (holds_surface w r.0)
unfolding render_buffer
render_buffer-Balance w shm p surf idx env s h k =
    let (r, t) = fit_buffer shm surf idx env s in
    omega (
      arith,
      fit_buffer-Balance w shm surf idx env s h,
      draw_and_present-Balance w p idx r env t h
          ((fit_buffer-Keeps shm surf idx env s).same_callback ∙ k),
    )

-- The callback that the surface waits for, if it waits.
abbrev pub Waits : Surface → Type 0
Waits surf = surf.frame_pending ≡ is_some surf.frame_callback

render_found-Balance :
    (w : Weight) (shm : Option ℕ) (p : ℕ) (surf : Surface) (found : Option ℕ × Surface) (env : Env)
    (s : World)
    → FirstFree surf found
    → surf.frame_callback ≡ none
    → let r = render_buffer shm p found.1 found.0 env s in
      Balance w s (holds_surface w surf) r.1 (holds_surface w r.0)
unfolding render_buffer
render_found-Balance w shm p surf (none, surf') env s f k = omega (arith, ap (holds_surface w) f.3)
render_found-Balance w shm p surf (some idx, surf') env s f k =
    let (n, lt, e, idle, busy, same) = f in
    omega (
      arith,
      ap (holds_surface w) same,
      render_buffer-Balance w shm p surf' idx env s (omega arith)
          (ap (λ (x : Surface). x.frame_callback) same ∙ k),
    )

render_on-Balance :
    (w : Weight) (shm : Option ℕ) (surf : Surface) (p : Option ℕ) (env : Env) (s : World)
    → surf.frame_callback ≡ none
    → let r = render_on shm surf p env s in
      Balance w s (holds_surface w surf) r.1 (holds_surface w r.0)
unfolding render_on
render_on-Balance w shm surf none env s k = omega arith
render_on-Balance w shm surf (some p) env s k =
    elim (Bool-cases (surf.width == 0 || surf.height == 0)) [
      | inl e ↦ rw e (omega arith)
      | inr e ↦ rw e (
          render_found-Balance w shm p surf (kl_surface_get_free_buffer surf) env s
            (get_free_buffer-FirstFree surf) k)
    ]

-- Whatever fails in `kl_surface_render_frame`, the surface holds afterwards exactly what it held
-- before with what was made and not given back since. A frame was pending exactly if there was a
-- frame callback.
pub kl_surface_render_frame-Balance :
    (w : Weight) (shm : Option ℕ) (surf : Surface) (env : Env) (s : World)
    → Waits surf
    → let r = kl_surface_render_frame shm surf env s in
      Balance w s (holds_surface w surf) r.1 (holds_surface w r.0)
unfolding kl_surface_render_frame
kl_surface_render_frame-Balance w shm surf env s k =
    elim (Bool-cases (not surf.configured || surf.frame_pending)) [
      | inl e ↦ rw e (omega arith)
      | inr e ↦ rw e (render_on-Balance w shm surf surf.wl_surface env s (ground arith))
    ]

pub kl_surface_request_render-Balance :
    (w : Weight) (shm : Option ℕ) (surf : Surface) (env : Env) (s : World)
    → Waits surf
    → let r = kl_surface_request_render shm surf env s in
      Balance w s (holds_surface w surf) r.1 (holds_surface w r.0)
unfolding kl_surface_request_render
kl_surface_request_render-Balance w shm surf env s k =
    elim (Bool-cases (not surf.frame_pending && surf.configured)) [
      | inl e ↦ rw e (kl_surface_render_frame-Balance w shm (record surf { dirty = true }) env s k)
      | inr e ↦ rw e (omega arith)
    ]
