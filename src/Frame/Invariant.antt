-- ===== src/Frame/Invariant.antt =====
-- The invariant of surfaces under the frames of src/surface.c.
use kirilock.Base.{
  update, ◌||◌, ℕ, ◌<◌, ◌==◌, ◌≡◌, refl, inl, inr, ℤ, true, Bool-cases, Option, none, some, is_some,
  arith,
}
use kirilock.Platform.{Env, World, ReturnsInts}
use kirilock.Buffer.{Buffer, Status, success, failure, cleared}
use kirilock.Buffer.Balance.{kl_buffer_destroy-cleared}
use kirilock.Buffer.Result.{Created, kl_buffer_create-Created}
use kirilock.Surface.{Surface, buffer_count}
use kirilock.Surface.Invariant.{
  Inv, IsUsable, AllUsable, AllUsable-update, IsUsable-at, busy-IsUsable,
}
use kirilock.Frame.Keep.{Keeps, fit_buffer-Keeps, draw_buffer-Keeps}
use kirilock.Frame.Ring.{FirstFree, get_free_buffer-FirstFree}
use kirilock.Frame.{
  fits, fit_buffer, draw_buffer, present, draw_and_present, render_buffer, render_on,
  kl_surface_get_free_buffer, kl_surface_render_frame, kl_surface_request_render,
}

Created-IsUsable :
    (width height : ℕ) (scale : ℤ) (ud : Option ℕ) (r : Status × Buffer)
    → Created width height scale true ud r
    → IsUsable r.1
Created-IsUsable width height scale ud (success, b) c =
    inl (c.0.has_wl_buffer, c.0.has_cr, c.0.listens)
Created-IsUsable width height scale ud (failure, b) c = inr (c.0, c.3)

-- What `fit_buffer` hands to the drawing.
abbrev Fitted : ℕ → Status × Surface → Type 0
Fitted idx (failure, surf) = AllUsable surf.buffers
Fitted idx (success, surf) = AllUsable surf.buffers × (is_some (surf.buffers idx).wl_buffer ≡ true)

Created-Fitted :
    (surf : Surface) (idx : ℕ) (scale : ℤ) (ud : Option ℕ) (r : Status × Buffer)
    → AllUsable surf.buffers
    → Created surf.width surf.height scale true ud r
    → Fitted idx (r.0, record surf { buffers = update surf.buffers idx r.1 })
Created-Fitted surf idx scale ud (failure, b) v c =
    AllUsable-update surf.buffers idx b
      (Created-IsUsable surf.width surf.height scale ud (failure, b) c) v
Created-Fitted surf idx scale ud (success, b) v c = (
  AllUsable-update surf.buffers idx b
      (Created-IsUsable surf.width surf.height scale ud (success, b) c) v,
  ground arith,
)

fit_buffer-Fitted :
    (shm : Option ℕ) (surf : Surface) (idx : ℕ) (env : Env) (s : World)
    → ReturnsInts env
    → AllUsable surf.buffers
    → Fitted idx (fit_buffer shm surf idx env s).0
unfolding fit_buffer
fit_buffer-Fitted shm surf idx env s ints v = elim (Bool-cases (fits surf (surf.buffers idx))) [
  | inl e ↦ rw e (v, ground arith)
  | inr e ↦
      rw (e, kl_buffer_destroy-cleared (surf.buffers idx) env s)
        (Created-Fitted surf idx surf.scale (some surf.address) _ v (
          kl_buffer_create-Created surf.width surf.height surf.scale true (some surf.address)
            cleared refl refl refl refl _ env _ ints))
]

draw_buffer-usable :
    (surf : Surface) (idx : ℕ) (env : Env) (s : World)
    → idx < buffer_count
    → AllUsable surf.buffers
    → is_some (surf.buffers idx).wl_buffer ≡ true
    → AllUsable (draw_buffer surf idx env s).0.buffers
unfolding draw_buffer
draw_buffer-usable surf idx env s lt v h =
    AllUsable-update surf.buffers idx (record (surf.buffers idx) { busy = true })
      (busy-IsUsable (surf.buffers idx) (IsUsable-at surf.buffers idx lt v) h) v

-- A frame ends with a callback pending, or with neither.
present-Inv :
    (p : ℕ) (surf : Surface) (idx : ℕ) (env : Env) (s : World)
    → Inv surf
    → Inv (present p surf idx env s).0
unfolding present
present-Inv p surf idx env s v = ground arith

-- The steps before change no field of the invariant but the buffers.
Inv-Keeps :
    (surf surf' : Surface) → Keeps surf surf' → AllUsable surf'.buffers → Inv surf → Inv surf'
Inv-Keeps surf surf' k v i = ground arith

draw_and_present-Inv :
    (p idx : ℕ) (r : Status × Surface) (env : Env) (s : World)
    → idx < buffer_count
    → Fitted idx r
    → Inv r.1
    → Inv (draw_and_present p idx r env s).0
unfolding draw_and_present
draw_and_present-Inv p idx (failure, surf) env s h f i = i
draw_and_present-Inv p idx (success, surf) env s h f i =
    let (drawn, t) = draw_buffer surf idx env s in
    present-Inv p drawn idx env t (
      Inv-Keeps surf drawn (draw_buffer-Keeps surf idx env s)
        (draw_buffer-usable surf idx env s h f.0 f.1) i)

Fitted-usable : (idx : ℕ) (r : Status × Surface) → Fitted idx r → AllUsable r.1.buffers
Fitted-usable idx (failure, surf) f = f
Fitted-usable idx (success, surf) f = f.0

render_buffer-Inv :
    (shm : Option ℕ) (p : ℕ) (surf : Surface) (found : Option ℕ × Surface) (env : Env) (s : World)
    → ReturnsInts env
    → FirstFree surf found
    → Inv surf
    → Inv (render_buffer shm p found.1 found.0 env s).0
unfolding render_buffer
render_buffer-Inv shm p surf (none, surf') env s ints f i = ground arith
render_buffer-Inv shm p surf (some idx, surf') env s ints f i =
    let (k, lt, e, idle, busy, same) = f in
    let chosen : Inv surf' = ground arith in
    let (r, t) = fit_buffer shm surf' idx env s in
    let fitted =
      fit_buffer-Fitted shm surf' idx env s ints (chosen.first, chosen.second, chosen.third) in
    draw_and_present-Inv p idx r env t (omega arith) fitted (
      Inv-Keeps surf' r.1 (fit_buffer-Keeps shm surf' idx env s) (Fitted-usable idx r fitted)
        chosen)

render_on-Inv :
    (shm : Option ℕ) (surf : Surface) (p : Option ℕ) (env : Env) (s : World)
    → ReturnsInts env
    → Inv surf
    → Inv (render_on shm surf p env s).0
unfolding render_on
render_on-Inv shm surf none env s ints i = i
render_on-Inv shm surf (some p) env s ints i =
    let shown =
      render_buffer-Inv shm p surf (kl_surface_get_free_buffer surf) env s ints
        (get_free_buffer-FirstFree surf) i in
    elim (Bool-cases (surf.width == 0 || surf.height == 0)) [ inl e ↦ rw e i | inr e ↦ rw e shown ]

-- `kl_surface_render_frame` keeps the invariant of a surface, on every path: a pending frame has
-- its callback, a buffer with the compositor has a wl_buffer and a release callback, and the
-- current buffer is in the array. The calls return 32-bit integers.
pub kl_surface_render_frame-Inv :
    (shm : Option ℕ) (surf : Surface) (env : Env) (s : World)
    → ReturnsInts env
    → Inv surf
    → Inv (kl_surface_render_frame shm surf env s).0
unfolding kl_surface_render_frame
kl_surface_render_frame-Inv shm surf env s ints i =
    ground (arith, render_on-Inv shm surf surf.wl_surface env s ints i)

pub kl_surface_request_render-Inv :
    (shm : Option ℕ) (surf : Surface) (env : Env) (s : World)
    → ReturnsInts env
    → Inv surf
    → Inv (kl_surface_request_render shm surf env s).0
unfolding kl_surface_request_render
kl_surface_request_render-Inv shm surf env s ints i =
    ground (arith, kl_surface_render_frame-Inv shm (record surf { dirty = true }) env s)
