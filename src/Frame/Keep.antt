-- ===== src/Frame/Keep.antt =====
-- The fields of a surface that the steps of a frame leave alone.
use kirilock.Base.{ℕ, ◌≡◌, Option, arith}
use kirilock.Platform.{Env, World}
use kirilock.Surface.{Surface}
use kirilock.Frame.{fit_buffer, draw_buffer}

-- The fields that preparing and drawing a buffer do not touch.
pub record Keeps (surf surf' : Surface) : Type 0 where
  pub same_address : surf'.address ≡ surf.address
  pub same_name : surf'.global_name ≡ surf.global_name
  pub same_output : surf'.wl_output ≡ surf.wl_output
  pub same_surface : surf'.wl_surface ≡ surf.wl_surface
  pub same_role : surf'.ext_lock_surface ≡ surf.ext_lock_surface
  pub same_callback : surf'.frame_callback ≡ surf.frame_callback
  pub same_current : surf'.current_buffer ≡ surf.current_buffer
  pub same_width : surf'.width ≡ surf.width
  pub same_height : surf'.height ≡ surf.height
  pub same_scale : surf'.scale ≡ surf.scale
  pub same_configured : surf'.configured ≡ surf.configured
  pub same_pending : surf'.frame_pending ≡ surf.frame_pending

pub fit_buffer-Keeps :
    (shm : Option ℕ) (surf : Surface) (idx : ℕ) (env : Env) (s : World)
    → Keeps surf (fit_buffer shm surf idx env s).0.1
unfolding fit_buffer
fit_buffer-Keeps shm surf idx env s = ground arith

pub draw_buffer-Keeps :
    (surf : Surface) (idx : ℕ) (env : Env) (s : World) → Keeps surf (draw_buffer surf idx env s).0
unfolding draw_buffer
draw_buffer-Keeps surf idx env s = ground arith
