-- ===== src/Frame/Update.antt =====
-- When `kl_surface_request_render` of src/surface.c draws, and what it leaves to later.
use kirilock.Base.{
  ◌∙◌, ℕ, ◌≡◌, refl, ◌⊎◌, inl, inr, ◌||◌, ◌&&◌, not, true, false, Bool-cases, Option, none, some,
  ◌==◌, arith,
}
use kirilock.Platform.{Env, World}
use kirilock.Buffer.{Status, success, failure}
use kirilock.Surface.{Surface}
use kirilock.Frame.{
  select, kl_surface_get_free_buffer, find_free, fit_buffer, draw_and_present, present,
  add_callback, draw_buffer, render_buffer, render_on, kl_surface_render_frame,
  kl_surface_request_render,
}

-- The picture is out of date and will be drawn again, or the compositor is asked for the next frame.
abbrev pub IsKept : Surface → Type 0
IsKept surf = (surf.dirty ≡ true) ⊎ (surf.frame_pending ≡ true)

add_callback-IsKept :
    (p : ℕ) (surf : Surface) (c : Option ℕ) (env : Env) (s : World)
    → surf.dirty ≡ true
    → IsKept (add_callback p surf c env s).0
unfolding add_callback
add_callback-IsKept p surf none env s h = inl h
add_callback-IsKept p surf (some c) env s h = ground arith

present-IsKept :
    (p : ℕ) (surf : Surface) (idx : ℕ) (env : Env) (s : World)
    → surf.dirty ≡ true
    → IsKept (present p surf idx env s).0
unfolding present
present-IsKept p surf idx env s h = add_callback-IsKept p surf _ env _ h

draw_buffer-dirty :
    (surf : Surface) (idx : ℕ) (env : Env) (s : World)
    → (draw_buffer surf idx env s).0.dirty ≡ surf.dirty
unfolding draw_buffer
draw_buffer-dirty surf idx env s = refl

draw_and_present-IsKept :
    (p idx : ℕ) (r : Status × Surface) (env : Env) (s : World)
    → r.1.dirty ≡ true
    → IsKept (draw_and_present p idx r env s).0
unfolding draw_and_present
draw_and_present-IsKept p idx (failure, surf) env s h = inl h
draw_and_present-IsKept p idx (success, surf) env s h =
    let (drawn, t) = draw_buffer surf idx env s in
    present-IsKept p drawn idx env t (draw_buffer-dirty surf idx env s ∙ h)

fit_buffer-dirty :
    (shm : Option ℕ) (surf : Surface) (idx : ℕ) (env : Env) (s : World)
    → (fit_buffer shm surf idx env s).0.1.dirty ≡ surf.dirty
unfolding fit_buffer
fit_buffer-dirty shm surf idx env s = ground arith

render_buffer-IsKept :
    (shm : Option ℕ) (p : ℕ) (surf : Surface) (found : Option ℕ) (env : Env) (s : World)
    → surf.dirty ≡ true
    → IsKept (render_buffer shm p surf found env s).0
unfolding render_buffer
render_buffer-IsKept shm p surf none env s h = inl refl
render_buffer-IsKept shm p surf (some idx) env s h =
    draw_and_present-IsKept p idx _ env _ (rw (fit_buffer-dirty shm surf idx env s) h)

select-dirty : (surf : Surface) (found : Option ℕ) → (select surf found).1.dirty ≡ surf.dirty
unfolding select
select-dirty surf none = refl
select-dirty surf (some idx) = refl

render_on-IsKept :
    (shm : Option ℕ) (surf : Surface) (p : Option ℕ) (env : Env) (s : World)
    → surf.dirty ≡ true
    → IsKept (render_on shm surf p env s).0
unfolding render_on kl_surface_get_free_buffer
render_on-IsKept shm surf none env s h = inl h
render_on-IsKept shm surf (some p) env s h =
    elim (Bool-cases (surf.width == 0 || surf.height == 0)) [
      | inl e ↦ rw e (inl h)
      | inr e ↦ rw e (
          render_buffer-IsKept shm p _ _ env s
            (rw (select-dirty surf (find_free surf.buffers surf.current_buffer 3 0)) h))
    ]

render_frame-IsKept :
    (shm : Option ℕ) (surf : Surface) (env : Env) (s : World)
    → surf.dirty ≡ true
    → IsKept (kl_surface_render_frame shm surf env s).0
unfolding kl_surface_render_frame
render_frame-IsKept shm surf env s h =
    elim (Bool-cases (not surf.configured || surf.frame_pending)) [
      | inl e ↦ rw e (inl h)
      | inr e ↦ rw e (render_on-IsKept shm surf surf.wl_surface env s h)
    ]

-- After `kl_surface_request_render` the surface is still dirty or waits for a frame callback,
-- whatever fails on the way.
pub request_render-IsKept :
    (shm : Option ℕ) (surf : Surface) (env : Env) (s : World)
    → IsKept (kl_surface_request_render shm surf env s).0
unfolding kl_surface_request_render
request_render-IsKept shm surf env s =
    elim (Bool-cases (not surf.frame_pending && surf.configured)) [
      | inl e ↦ rw e (render_frame-IsKept shm _ env s refl)
      | inr e ↦ rw e (inl refl)
    ]

-- While a frame callback is awaited, or before the first configure event,
-- `kl_surface_request_render` makes no call: it only marks the surface dirty.
request_render-pending :
    (shm : Option ℕ) (surf : Surface) (env : Env) (s : World)
    → (surf.frame_pending ≡ true) ⊎ (surf.configured ≡ false)
    → kl_surface_request_render shm surf env s ≡ (record surf { dirty = true }, s)
unfolding kl_surface_request_render
request_render-pending shm surf env s h = ground arith
